-- ===== src/WebServer/Selection/Selects.antt =====
-- `HandleSelectRingSound` of chime/src/webd/web_server.cpp.
use virtualchime.Base.{
  [], ◌∷◌, ◌++◌, true, false, ◌≡◌, ◌≢◌, refl, sym, ap, ◌∙◌, arith, Option, none, some, Bytes, codes,
  bytes_eq, bytes_eq_iff, contains_bytes, starts_with, Bool-cases, Option-cases, inl, inr,
}
use virtualchime.Text.{to_lower}
use virtualchime.Json.{
  JsonValue, null, bool, number, string, array, object, Outcome, ok, failed, out_of_fuel,
}
use virtualchime.Json.Parser.{parse_json}
use virtualchime.WebServer.{HttpRequest, HttpResponse}
use virtualchime.WebServer.Names.{is_safe_sound_name}
use virtualchime.WebServer.Fields.{Read, read_required_string}
use virtualchime.WebServer.Sounds.{
  Entry, regular, special, Files, Place, directory, files_of, lookup, ensure_directory_exists,
  write_and_move,
}
use virtualchime.WebServer.Sounds.Files.{
  Written, moved, kept, write_and_move-Written, safe-not_temp,
}
use virtualchime.WebServer.Sounds.Upload.{Unchanged, ensure_directory_exists-files}
use virtualchime.WebServer.Selection.{
  Sounds, SelectEnv, selected_name, persist, persisted, selected_response, activate, select_entry,
  select_ensured, select_name, select_value, select_parsed, handle_select_ring_sound,
}

-- How a selection can end.
pub data SelectEnds (sounds : Sounds) : Sounds × HttpResponse → Type 0 where
  selects :
      (after : Sounds) (response : HttpResponse) (name content : Bytes)
      → response.status ≡ 200
      → is_safe_sound_name name ≡ true
      → lookup name (files_of sounds.place) ≡ some (regular content)
      → after.active ≡ some content
      → Unchanged sounds.place after.place
      → SelectEnds sounds (after, response)
  refuses :
      (after : Sounds) (response : HttpResponse)
      → response.status ≢ 200
      → after.active ≡ sounds.active
      → Unchanged sounds.place after.place
      → SelectEnds sounds (after, response)

not_safe : is_safe_sound_name selected_name ≢ true
unfolding is_safe_sound_name to_lower contains_bytes starts_with bytes_eq
not_safe h = absurd (cc h)

safe-not_selected :
    (name : Bytes) → is_safe_sound_name name ≡ true → bytes_eq name selected_name ≡ false
unfolding bytes_eq
safe-not_selected name h = elim (Bool-cases (bytes_eq name selected_name)) [
  | inr differs ↦ differs
  | inl e ↦
      let same : name ≡ selected_name = (bytes_eq_iff name selected_name).0 e in
      let wav : is_safe_sound_name selected_name ≡ true = rw (← same) h in absurd (not_safe wav)
]

Written-Unchanged :
    (content : Bytes) (files : Files) (p : Files × Option Bytes)
    → Written selected_name content files p
    → Unchanged (directory files) (directory p.0)
Written-Unchanged content files p (moved after found others) other safe =
    others other (safe-not_selected other safe) (safe-not_temp other selected_name safe)
Written-Unchanged content files p (kept after message others) other safe =
    others other (safe-not_temp other selected_name safe)

module _ (env : SelectEnv) (sounds : Sounds) (files : Files) (name content : Bytes) where
  persisted-SelectEnds :
      is_safe_sound_name name ≡ true
      → lookup name (files_of sounds.place) ≡ some (regular content)
      → files ≡ files_of sounds.place
      → SelectEnds sounds (
          persisted
            (record sounds { active = some content; active_temp = none })
            name
            (persist env.selected name files))
  unfolding persist persisted selected_response
  persisted-SelectEnds safe found same =
      let written = write_and_move env.selected selected_name (name ++ b'\n' ∷ []) files in
      selects _ _ name content refl safe found refl (λ other s.
        Written-Unchanged (name ++ b'\n' ∷ []) files written
          (write_and_move-Written env.selected selected_name (name ++ b'\n' ∷ []) files) other s
        ∙ ap (lookup other) same)

  activate-SelectEnds :
      is_safe_sound_name name ≡ true
      → lookup name (files_of sounds.place) ≡ some (regular content)
      → files ≡ files_of sounds.place
      → SelectEnds sounds (activate env sounds files name content)
  unfolding activate selected_response
  activate-SelectEnds safe found same = elim (Option-cases env.parent_error) [
    | inr (message, e) ↦ rw (e, activate) (refuses sounds _ (ground arith) refl (λ other s. refl))
    | inl e ↦ elim (Bool-cases env.copy.copy_ok) [
      | inr f ↦ simp (e, f, activate) (refuses _ _ (ground arith) refl (λ other s. refl))
      | inl f ↦ elim (Bool-cases env.copy.rename_ok) [
        | inr g ↦ simp (e, f, g, activate) (refuses _ _ (ground arith) refl (λ other s. refl))
        | inl g ↦ simp (e, f, g, activate) (persisted-SelectEnds safe found same)
      ]
    ]
  ]

widen :
    (sounds : Sounds) (place : Place) (p : Sounds × HttpResponse)
    → files_of place ≡ files_of sounds.place
    → SelectEnds (record sounds { place = place }) p
    → SelectEnds sounds p
widen sounds place p same (selects after response name content status safe found active rest) =
    selects after response name content status safe (ap (lookup name) (sym same) ∙ found) active
      (λ other s. rest other s ∙ ap (lookup other) same)
widen sounds place p same (refuses after response status active rest) =
    refuses after response status active (λ other s. rest other s ∙ ap (lookup other) same)

select_entry-SelectEnds :
    (env : SelectEnv) (sounds : Sounds) (name : Bytes) (entry : Option Entry)
    → is_safe_sound_name name ≡ true
    → lookup name (files_of sounds.place) ≡ entry
    → SelectEnds sounds (select_entry env sounds (files_of sounds.place) name entry)
unfolding select_entry
select_entry-SelectEnds env sounds name none safe e =
    refuses sounds _ (ground arith) refl (λ other s. refl)
select_entry-SelectEnds env sounds name (some special) safe e =
    refuses sounds _ (ground arith) refl (λ other s. refl)
select_entry-SelectEnds env sounds name (some (regular content)) safe e =
    activate-SelectEnds env sounds (files_of sounds.place) name content safe e refl

select_ensured-SelectEnds :
    (env : SelectEnv) (sounds : Sounds) (name : Bytes) (p : Place × Option Bytes)
    → is_safe_sound_name name ≡ true
    → files_of p.0 ≡ files_of sounds.place
    → SelectEnds sounds (select_ensured env sounds name p)
unfolding select_ensured
select_ensured-SelectEnds env sounds name (place, some message) safe same =
    refuses _ _ (ground arith) refl (λ other s. ap (lookup other) same)
select_ensured-SelectEnds env sounds name (place, none) safe same = widen sounds place _ same (
    select_entry-SelectEnds env (record sounds { place = place }) name
      (lookup name (files_of place)) safe refl)

select_name-SelectEnds :
    (dir : Bytes) (env : SelectEnv) (sounds : Sounds) (read : Read Bytes)
    → SelectEnds sounds (select_name dir env sounds read)
unfolding select_name
select_name-SelectEnds dir env sounds (none, errors) =
    refuses sounds _ (ground arith) refl (λ other s. refl)
select_name-SelectEnds dir env sounds (some name, e ∷ errors) =
    refuses sounds _ (ground arith) refl (λ other s. refl)
select_name-SelectEnds dir env sounds (some name, []) =
    elim (Bool-cases (is_safe_sound_name name)) [
      | inr e ↦ simp e (refuses sounds _ (ground arith) refl (λ other s. refl))
      | inl e ↦ simp e (
          select_ensured-SelectEnds env sounds name
            (ensure_directory_exists dir env.ensure sounds.place) e
            (ensure_directory_exists-files dir env.ensure sounds.place))
    ]

module _ {D : Type 0} (dir : Bytes) (env : SelectEnv) (sounds : Sounds) where
  select_value-SelectEnds :
      (value : JsonValue D) → SelectEnds sounds (select_value dir env sounds value)
  unfolding select_value
  select_value-SelectEnds (object fields) =
      select_name-SelectEnds dir env sounds (read_required_string (object fields) (codes "name"))
  select_value-SelectEnds null = refuses sounds _ (ground arith) refl (λ other s. refl)
  select_value-SelectEnds (bool b) = refuses sounds _ (ground arith) refl (λ other s. refl)
  select_value-SelectEnds (number d) = refuses sounds _ (ground arith) refl (λ other s. refl)
  select_value-SelectEnds (string s) = refuses sounds _ (ground arith) refl (λ other t. refl)
  select_value-SelectEnds (array items) = refuses sounds _ (ground arith) refl (λ other s. refl)

  select_parsed-SelectEnds :
      (parsed : Outcome (JsonValue D)) → SelectEnds sounds (select_parsed dir env sounds parsed)
  unfolding select_parsed
  select_parsed-SelectEnds (ok value rest) = select_value-SelectEnds value
  select_parsed-SelectEnds (failed error) = refuses sounds _ (ground arith) refl (λ other s. refl)
  select_parsed-SelectEnds out_of_fuel = refuses sounds _ (ground arith) refl (λ other s. refl)

  -- A selection that answers 200 has made the content of a sound, which had a safe name and was
  -- there, the active one; any other answer leaves the active sound as it was. No sound of the
  -- directory changes either way.
  pub handle_select_ring_sound-SelectEnds :
      (strtod : Bytes → Option D) (request : HttpRequest)
      → SelectEnds sounds (handle_select_ring_sound strtod dir env request sounds)
  unfolding handle_select_ring_sound
  handle_select_ring_sound-SelectEnds strtod request =
      select_parsed-SelectEnds (parse_json strtod request.body)
