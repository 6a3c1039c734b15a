-- ===== src/WebServer/Selection.antt =====
-- The selected ring sound of chime/src/webd/web_server.cpp: `TrySeedDefaultRingSound`,
-- `HandleGetRingSounds` and `HandleSelectRingSound`, over the sounds' directory, the active sound
-- that the chime plays, and the file beside it.
pub mod Selects
pub mod Lists
use virtualchime.Base.{
  ℕ, Bool, true, false, not, ◌&&◌, ◌||◌, List, [], ◌∷◌, ◌++◌, map, Option, none, some,
  if◌then◌else◌, ltb, is_empty, Bytes, codes, bytes_eq, member, is_some, ◌==◌,
}
use virtualchime.Text.{trim, get_lines}
use virtualchime.ConfigStore.Types.{ValidationError}
use virtualchime.Json.{
  JsonValue, null, bool, number, string, array, object, Outcome, ok, failed, out_of_fuel,
  json_string, json_bool,
}
use virtualchime.Json.Parser.{parse_json}
use virtualchime.WebServer.{
  HttpRequest, HttpResponse, respond, message_body, object_text, array_text, text_field,
}
use virtualchime.WebServer.Names.{is_safe_sound_name}
use virtualchime.WebServer.Fields.{Read, read_required_string}
use virtualchime.WebServer.Sounds.{
  Entry, regular, special, Files, lookup, store_file, remove_file, Place, absent, no_directory,
  directory, EnsureEnv, ensure_directory_exists, files_of, temp_name, FileEnv, try_remove,
  write_and_move, invalid_sound_name, unavailable,
}

-- The directory, the file at `active_ring_sound_path_`, and the temporary file beside that.
pub record Sounds : Type 0 where
  pub place : Place
  pub active : Option Bytes
  pub active_temp : Option Bytes

-- The outcomes of copying a file to a temporary name and moving it.
pub record CopyEnv : Type 0 where
  pub copy_ok : Bool
  pub partial : Option Bytes
  pub rename_ok : Bool
  pub remove_ok : Bool

abbrev pub default_sound : Bytes
default_sound = codes "ring-default.wav"

abbrev pub selected_name : Bytes
selected_name = codes "selected.txt"

abbrev store_partial : Bytes → Option Bytes → Files → Files
unfolding store_file
store_partial name none files = files
store_partial name (some content) files = store_file name (regular content) files

abbrev seed : CopyEnv → Bytes → Files → Files
unfolding store_partial store_file try_remove remove_file
seed env content files =
    if not env.copy_ok
    then store_partial (temp_name default_sound) env.partial files
    else if not env.rename_ok
    then try_remove env.remove_ok (temp_name default_sound)
        (store_file (temp_name default_sound) (regular content) files)
    else store_file default_sound (regular content) (remove_file (temp_name default_sound) files)

-- `TrySeedDefaultRingSound`, where the files can be inspected.
unfoldable pub try_seed_default_ring_sound : CopyEnv → Option Bytes → Files → Files
unfolding seed lookup
try_seed_default_ring_sound env none files = files
try_seed_default_ring_sound env (some content) files =
    if is_some (lookup default_sound files) then files else seed env content files

abbrev first_line : List Bytes → Bytes
first_line [] = []
first_line (line ∷ lines) = line

abbrev entry_line : Option Entry → Bytes
unfolding trim get_lines
entry_line none = []
entry_line (some special) = []
entry_line (some (regular content)) = trim (first_line (get_lines content))

-- The name in selected.txt.
unfoldable pub read_selected : Files → Bytes
unfolding entry_line lookup
read_selected files = entry_line (lookup selected_name files)

abbrev is_sound : Bytes → Entry → Bool
unfolding is_safe_sound_name
is_sound name (regular content) = is_safe_sound_name name
is_sound name special = false

-- The names of the regular files that are sounds.
unfoldable pub sound_names : Files → List Bytes
unfolding is_sound
sound_names [] = []
sound_names ((name, entry) ∷ files) =
    let rest = sound_names files in if is_sound name entry then name ∷ rest else rest

-- `operator<` on strings.
unfoldable pub less : Bytes → Bytes → Bool
less [] [] = false
less [] (d ∷ ds) = true
less (c ∷ cs) [] = false
less (c ∷ cs) (d ∷ ds) = let later = less cs ds in if c == d then later else ltb c d

unfoldable pub insert_name : Bytes → List Bytes → List Bytes
unfolding less
insert_name name [] = name ∷ []
insert_name name (n ∷ names) =
    let later = insert_name name names in if less n name then n ∷ later else name ∷ n ∷ names

-- `std::sort`.
unfoldable pub sort_names : List Bytes → List Bytes
unfolding insert_name
sort_names [] = []
sort_names (name ∷ names) = insert_name name (sort_names names)

-- The name that is shown: the selected one if it is a sound that is there.
unfoldable pub shown_name : Bytes → List Bytes → Bytes
unfolding member is_safe_sound_name
shown_name selected sounds =
    if is_safe_sound_name selected && member selected sounds then selected else []

-- A selection that is not shown is cleared, if its file can be opened.
abbrev clear_invalid : Bool → (selected shown : Bytes) → Files → Files
unfolding store_file
clear_invalid open_ok selected shown files =
    if is_empty shown && (not (is_empty selected) && open_ok)
    then store_file selected_name (regular []) files
    else files

pub record ListEnv : Type 0 where
  pub ensure : EnsureEnv
  pub seed : CopyEnv
  pub open_ok : Bool

pub sounds_text : Bytes → List Bytes → Bytes
unfolding json_string
sounds_text selected sounds = object_text (
    text_field (codes "selected_sound") selected
    ∷ (codes "sounds", array_text (map json_string sounds))
    ∷ [])

-- `HandleGetRingSounds` over the seeded files.
unfoldable pub list_sounds : Bool → Files → Files × HttpResponse
unfolding read_selected sort_names sound_names shown_name clear_invalid sounds_text
list_sounds open_ok files =
    let selected = read_selected files in
    let sounds = sort_names (sound_names files) in
    let shown = shown_name selected sounds in
    (clear_invalid open_ok selected shown files, respond 200 (sounds_text shown sounds))

abbrev placed : Sounds → Files × HttpResponse → Sounds × HttpResponse
placed sounds (files, response) = (record sounds { place = directory files }, response)

abbrev list_ensured : ListEnv → Sounds → Place × Option Bytes → Sounds × HttpResponse
unfolding try_seed_default_ring_sound list_sounds
list_ensured env sounds (place, some message) =
    (record sounds { place = place }, unavailable message)
list_ensured env sounds (place, none) =
    placed sounds (
      list_sounds env.open_ok (try_seed_default_ring_sound env.seed sounds.active (files_of place)))

-- `HandleGetRingSounds`.
unfoldable pub handle_get_ring_sounds : Bytes → ListEnv → Sounds → Sounds × HttpResponse
unfolding list_ensured ensure_directory_exists
handle_get_ring_sounds dir env sounds =
    list_ensured env sounds (ensure_directory_exists dir env.ensure sounds.place)

pub record SelectEnv : Type 0 where
  pub ensure : EnsureEnv
  pub parent_error : Option Bytes
  pub copy : CopyEnv
  pub selected : FileEnv

abbrev activate_failed : Bytes → HttpResponse
activate_failed message = respond 500 (message_body (codes "activate_failed") message)

pub selected_response : Bytes → Bool → HttpResponse
unfolding json_string json_bool
selected_response name persisted = respond 200 (
    object_text (
      text_field (codes "selected") name ∷ (codes "selection_persisted", json_bool persisted) ∷ []))

-- The write of selected.txt. A short `write`, an `fsync` and a `close` that fail are all
-- `write_ok = false`.
abbrev persist : FileEnv → Bytes → Files → Files × Bool
unfolding write_and_move
persist env name files =
    let (after, error) = write_and_move env selected_name (name ++ b'\n' ∷ []) files in
    (after, not (is_some error))

abbrev persisted : Sounds → Bytes → Files × Bool → Sounds × HttpResponse
unfolding selected_response
persisted sounds name (files, saved) =
    (record sounds { place = directory files }, selected_response name saved)

-- Behind the test that the source is a regular file with this content.
unfoldable pub activate : SelectEnv → Sounds → Files → Bytes → Bytes → Sounds × HttpResponse
unfolding persisted persist
activate env sounds files name content = elim env.parent_error [
  | some message ↦ (
    sounds,
    respond 500 (
        message_body (codes "create_directory_failed")
          (codes "failed to create parent directory: " ++ message)),
  )
  | none ↦
      if not env.copy.copy_ok
      then (
        record sounds { active_temp = env.copy.partial },
        activate_failed (codes "failed to copy selected sound"),
      )
      else if not env.copy.rename_ok
      then (
        record sounds { active_temp = if env.copy.remove_ok then none else some content },
        activate_failed (codes "failed to activate selected sound"),
      )
      else persisted (record sounds { active = some content; active_temp = none }) name
          (persist env.selected name files)
]

abbrev no_such_sound : HttpResponse
no_such_sound = respond 404 (message_body (codes "not_found") (codes "sound file does not exist"))

abbrev select_entry : SelectEnv → Sounds → Files → Bytes → Option Entry → Sounds × HttpResponse
unfolding activate
select_entry env sounds files name none = (sounds, no_such_sound)
select_entry env sounds files name (some special) = (sounds, no_such_sound)
select_entry env sounds files name (some (regular content)) = activate env sounds files name content

abbrev select_ensured : SelectEnv → Sounds → Bytes → Place × Option Bytes → Sounds × HttpResponse
unfolding select_entry lookup
select_ensured env sounds name (place, some message) =
    (record sounds { place = place }, unavailable message)
select_ensured env sounds name (place, none) =
    select_entry env (record sounds { place = place }) (files_of place) name
      (lookup name (files_of place))

-- Behind the reader of the name.
unfoldable pub select_name : Bytes → SelectEnv → Sounds → Read Bytes → Sounds × HttpResponse
unfolding select_ensured ensure_directory_exists is_safe_sound_name
select_name dir env sounds (none, errors) = (sounds, invalid_sound_name)
select_name dir env sounds (some name, e ∷ errors) = (sounds, invalid_sound_name)
select_name dir env sounds (some name, []) =
    if not (is_safe_sound_name name)
    then (sounds, invalid_sound_name)
    else select_ensured env sounds name (ensure_directory_exists dir env.ensure sounds.place)

abbrev not_an_object : HttpResponse
not_an_object =
    respond 400 (message_body (codes "invalid_json") (codes "payload must be an object"))

module _ {D : Type 0} where
  unfoldable pub select_value : Bytes → SelectEnv → Sounds → JsonValue D → Sounds × HttpResponse
  unfolding select_name read_required_string
  select_value dir env sounds (object fields) =
      select_name dir env sounds (read_required_string (object fields) (codes "name"))
  select_value dir env sounds null = (sounds, not_an_object)
  select_value dir env sounds (bool b) = (sounds, not_an_object)
  select_value dir env sounds (number d) = (sounds, not_an_object)
  select_value dir env sounds (string s) = (sounds, not_an_object)
  select_value dir env sounds (array items) = (sounds, not_an_object)

  unfoldable pub select_parsed :
      Bytes → SelectEnv → Sounds → Outcome (JsonValue D) → Sounds × HttpResponse
  unfolding select_value
  select_parsed dir env sounds (ok value rest) = select_value dir env sounds value
  select_parsed dir env sounds (failed error) = (sounds, not_an_object)
  select_parsed dir env sounds out_of_fuel = (sounds, not_an_object)

  -- `HandleSelectRingSound`.
  unfoldable pub handle_select_ring_sound :
      (Bytes → Option D) → Bytes → SelectEnv → HttpRequest → Sounds → Sounds × HttpResponse
  unfolding select_parsed parse_json
  handle_select_ring_sound strtod dir env request sounds =
      select_parsed dir env sounds (parse_json strtod request.body)
