-- ===== src/WebServer/Sounds.antt =====
-- The ring sounds of chime/src/webd/web_server.cpp: `EnsureDirectoryExists` and
-- `HandleUploadRingSound`, over the files of the directory. How the calls of the operating system
-- end is in the environments.
pub mod Files
pub mod Upload
use virtualchime.Base.{
  ℕ, zero, suc, Bool, true, false, not, ◌&&◌, ◌||◌, List, [], ◌∷◌, ◌++◌, map, Option, none, some,
  if◌then◌else◌, ltb, leb, length, is_empty, take, drop, Bytes, codes, bytes_eq, starts_with,
  member, is_some, ◌==◌,
}
use virtualchime.Text.{trim, get_lines}
use virtualchime.Json.{
  JsonValue, null, bool, number, string, array, object, Outcome, ok, failed, out_of_fuel,
  json_string, json_bool,
}
use virtualchime.Json.Parser.{parse_json}
use virtualchime.WebServer.{
  HttpRequest, HttpResponse, respond, message_body, object_text, array_text, text_field,
}
use virtualchime.WebServer.Names.{mime_type_only, is_safe_sound_name}
use virtualchime.WebServer.Fields.{read_required_string}

pub data Entry : Type 0 where
  regular : Bytes → Entry
  special : Entry

abbrev pub Files : Type 0
Files = List (Bytes × Entry)

unfoldable pub lookup : Bytes → Files → Option Entry
unfolding bytes_eq
lookup name [] = none
lookup name ((n, e) ∷ files) =
    let later = lookup name files in if bytes_eq name n then some e else later

unfoldable pub store_file : Bytes → Entry → Files → Files
unfolding bytes_eq
store_file name entry [] = (name, entry) ∷ []
store_file name entry ((n, e) ∷ files) =
    let later = store_file name entry files in
    if bytes_eq name n then (n, entry) ∷ files else (n, e) ∷ later

unfoldable pub remove_file : Bytes → Files → Files
unfolding bytes_eq
remove_file name [] = []
remove_file name ((n, e) ∷ files) =
    let later = remove_file name files in if bytes_eq name n then later else (n, e) ∷ later

-- What is at `ring_sounds_dir_`.
pub data Place : Type 0 where
  absent : Place
  no_directory : Place
  directory : Files → Place

pub record EnsureEnv : Type 0 where
  pub exists_error : Option Bytes
  pub is_directory_error : Option Bytes
  pub create_error : Option Bytes

abbrev create : Option Bytes → Place × Option Bytes
create (some error) = (absent, some error)
create none = (directory [], none)

abbrev inspect : Bytes → Option Bytes → Place → Place × Option Bytes
inspect path (some error) place = (place, some error)
inspect path none absent = (absent, none)
inspect path none no_directory =
    (no_directory, some (codes "path exists but is not a directory: " ++ path))
inspect path none (directory files) = (directory files, none)

abbrev look : Bytes → EnsureEnv → Place → Place × Option Bytes
look path env absent = create env.create_error
look path env no_directory = inspect path env.is_directory_error no_directory
look path env (directory files) = inspect path env.is_directory_error (directory files)

-- `EnsureDirectoryExists`: the place afterwards, and the error where it returns false.
unfoldable pub ensure_directory_exists : Bytes → EnsureEnv → Place → Place × Option Bytes
ensure_directory_exists path env place = elim env.exists_error [
  | some error ↦ (place, some error)
  | none ↦ look path env place
]

-- The files once the directory is there.
abbrev pub files_of : Place → Files
files_of absent = []
files_of no_directory = []
files_of (directory files) = files

abbrev pub temp_name : Bytes → Bytes
temp_name name = name ++ codes ".tmp"

-- How the calls behind a name end: `partial` is what a failed write leaves in the
-- temporary file.
pub record FileEnv : Type 0 where
  pub open_ok : Bool
  pub write_ok : Bool
  pub partial : Bytes
  pub rename_ok : Bool
  pub remove_ok : Bool

unfoldable pub try_remove : Bool → Bytes → Files → Files
unfolding remove_file
try_remove removes name files = if removes then remove_file name files else files

-- A file written under a temporary name, and then moved: the files, and the message if it fails.
unfoldable pub write_and_move : FileEnv → Bytes → Bytes → Files → Files × Option Bytes
unfolding store_file try_remove remove_file
write_and_move env name content files =
    if not env.open_ok
    then (files, some (codes "failed to open destination"))
    else if not env.write_ok
    then (
      try_remove env.remove_ok (temp_name name)
          (store_file (temp_name name) (regular env.partial) files),
      some (codes "failed to write destination"),
    )
    else if not env.rename_ok
    then (
      try_remove env.remove_ok (temp_name name)
          (store_file (temp_name name) (regular content) files),
      some (codes "failed to move destination"),
    )
    else (store_file name (regular content) (remove_file (temp_name name) files), none)

abbrev pub invalid_sound_name : HttpResponse
invalid_sound_name =
    respond 400 (message_body (codes "invalid_sound_name") (codes "Use ring-*.wav"))

abbrev pub not_a_wav : HttpResponse
not_a_wav = respond 415 (message_body (codes "invalid_payload") (codes "payload is not a WAV file"))

abbrev pub unavailable : Bytes → HttpResponse
unavailable message = respond 500 (message_body (codes "ring_sounds_unavailable") message)

abbrev pub is_wav_type : HttpRequest → Bool
unfolding mime_type_only bytes_eq
is_wav_type request =
    let mime_type = mime_type_only request.content_type in
    not request.has_content_type
    || (bytes_eq mime_type (codes "audio/wav") || bytes_eq mime_type (codes "audio/x-wav"))

-- A body of twelve bytes or more with the two marks of a WAV file.
abbrev pub is_wav_body : Bytes → Bool
unfolding starts_with bytes_eq
is_wav_body body =
    not (ltb (length body) 12)
    && (starts_with (codes "RIFF") body && bytes_eq (take 4 (drop 8 body)) (codes "WAVE"))

abbrev pub sounds_prefix : Bytes
sounds_prefix = codes "/api/v1/ring/sounds/"

pub record UploadEnv : Type 0 where
  pub ensure : EnsureEnv
  pub file : FileEnv

abbrev uploaded : Bytes → Files × Option Bytes → Place × HttpResponse
unfolding json_string
uploaded name (files, some message) =
    (directory files, respond 500 (message_body (codes "save_failed") message))
uploaded name (files, none) =
    (directory files, respond 200 (object_text (text_field (codes "uploaded") name ∷ [])))

abbrev upload_ensured : UploadEnv → Bytes → Bytes → Place × Option Bytes → Place × HttpResponse
unfolding uploaded write_and_move
upload_ensured env name body (place, some message) = (place, unavailable message)
upload_ensured env name body (place, none) =
    uploaded name (write_and_move env.file name body (files_of place))

-- `HandleUploadRingSound`.
unfoldable pub handle_upload_ring_sound :
    Bytes → UploadEnv → HttpRequest → Place → Place × HttpResponse
unfolding upload_ensured is_safe_sound_name is_wav_type is_wav_body ensure_directory_exists
handle_upload_ring_sound dir env request place =
    let sound_name = drop (length sounds_prefix) request.path in
    if not (is_safe_sound_name sound_name)
    then (place, invalid_sound_name)
    else if not (is_wav_type request) || not (is_wav_body request.body)
    then (place, not_a_wav)
    else upload_ensured env sound_name request.body (ensure_directory_exists dir env.ensure place)
