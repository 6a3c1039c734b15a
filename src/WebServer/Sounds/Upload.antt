-- ===== src/WebServer/Sounds/Upload.antt =====
-- `HandleUploadRingSound` of chime/src/webd/web_server.cpp.
use virtualchime.Base.{
  [], true, false, not, ◌||◌, ◌≡◌, ◌≢◌, refl, ap, ◌∙◌, arith, Option, none, some, Bytes, bytes_eq,
  Bool-cases, Option-cases, inl, inr, length, drop,
}
use virtualchime.WebServer.{HttpRequest, HttpResponse}
use virtualchime.WebServer.Names.{is_safe_sound_name}
use virtualchime.WebServer.Sounds.{
  regular, Files, Place, absent, no_directory, directory, EnsureEnv, create,
  ensure_directory_exists, inspect, look, files_of, lookup, is_wav_type, is_wav_body, sounds_prefix,
  UploadEnv, uploaded, upload_ensured, handle_upload_ring_sound,
}
use virtualchime.WebServer.Sounds.Files.{
  Written, moved, kept, write_and_move-Written, safe-not_temp,
}

inspect-files :
    (path : Bytes) (error : Option Bytes) (place : Place)
    → files_of ((inspect path error place).0) ≡ files_of place
inspect-files path (some error) place = refl
inspect-files path none absent = refl
inspect-files path none no_directory = refl
inspect-files path none (directory files) = refl

create-files : (error : Option Bytes) → files_of ((create error).0) ≡ []
create-files none = refl
create-files (some error) = refl

look-files :
    (path : Bytes) (env : EnsureEnv) (place : Place)
    → files_of ((look path env place).0) ≡ files_of place
look-files path env absent = create-files env.create_error
look-files path env no_directory = inspect-files path env.is_directory_error no_directory
look-files path env (directory files) = inspect-files path env.is_directory_error (directory files)

pub ensure_directory_exists-files :
    (path : Bytes) (env : EnsureEnv) (place : Place)
    → files_of ((ensure_directory_exists path env place).0) ≡ files_of place
unfolding ensure_directory_exists
ensure_directory_exists-files path env place = elim (Option-cases env.exists_error) [
  | inr (error, e) ↦ rw (e, ensure_directory_exists) refl
  | inl e ↦ rw (e, ensure_directory_exists) (look-files path env place)
]

abbrev pub Unchanged : Place → Place → Type 0
Unchanged place after =
    (other : Bytes)
    → is_safe_sound_name other ≡ true
    → lookup other (files_of after) ≡ lookup other (files_of place)

-- How an upload to the given name can end.
pub data UploadEnds (name body : Bytes) (place : Place) : Place × HttpResponse → Type 0 where
  uploads :
      (after : Place) (response : HttpResponse)
      → response.status ≡ 200
      → lookup name (files_of after) ≡ some (regular body)
      → ((other : Bytes)
          → is_safe_sound_name other ≡ true
          → bytes_eq other name ≡ false
          → lookup other (files_of after) ≡ lookup other (files_of place))
      → UploadEnds name body place (after, response)
  rejects :
      (after : Place) (response : HttpResponse)
      → response.status ≢ 200
      → Unchanged place after
      → UploadEnds name body place (after, response)

uploaded-UploadEnds :
    (name body : Bytes) (place made : Place) (p : Files × Option Bytes)
    → files_of made ≡ files_of place
    → Written name body (files_of made) p
    → UploadEnds name body place (uploaded name p)
unfolding uploaded
uploaded-UploadEnds name body place made p same (moved after found others) =
    uploads (directory after) _ refl found (λ other safe differs.
      others other differs (safe-not_temp other name safe) ∙ ap (lookup other) same)
uploaded-UploadEnds name body place made p same (kept after message others) =
    rejects (directory after) _ (ground arith)
      (λ other safe. others other (safe-not_temp other name safe) ∙ ap (lookup other) same)

ensured-UploadEnds :
    (env : UploadEnv) (name body : Bytes) (place : Place) (p : Place × Option Bytes)
    → files_of p.0 ≡ files_of place
    → UploadEnds name body place (upload_ensured env name body p)
unfolding upload_ensured
ensured-UploadEnds env name body place (made, some message) same =
    rejects made _ (ground arith) (λ other safe. ap (lookup other) same)
ensured-UploadEnds env name body place (made, none) same =
    uploaded-UploadEnds name body place made _ same
      (write_and_move-Written env.file name body (files_of made))

-- An upload that answers 200 has stored the body under its name and left every other sound as it
-- was; an upload that answers anything else, on whatever failure, has left every sound as it was.
pub handle_upload_ring_sound-UploadEnds :
    (dir : Bytes) (env : UploadEnv) (request : HttpRequest) (place : Place)
    → UploadEnds
        (drop (length sounds_prefix) request.path)
        request.body
        place
        (handle_upload_ring_sound dir env request place)
unfolding handle_upload_ring_sound
handle_upload_ring_sound-UploadEnds dir env request place =
    let name = drop (length sounds_prefix) request.path in
    let unchanged : Unchanged place place = λ other safe. refl in
    elim (Bool-cases (is_safe_sound_name name)) [
      | inr e ↦ simp e (rejects place _ (ground arith) unchanged)
      | inl e ↦ elim (Bool-cases (not (is_wav_type request) || not (is_wav_body request.body))) [
        | inl f ↦ simp (e, f) (rejects place _ (ground arith) unchanged)
        | inr f ↦
            simp (e, f)
              (ensured-UploadEnds env name request.body place
                (ensure_directory_exists dir env.ensure place)
                (ensure_directory_exists-files dir env.ensure place))
      ]
    ]
