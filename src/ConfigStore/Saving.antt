-- ===== src/ConfigStore/Saving.antt =====
-- What `SaveCoreConfig` of chime/src/webd/config_store.cpp leaves in the two files.
use virtualchime.Base.{
  List, [], ◌∷◌, ◌≡◌, ◌≢◌, ◌⊎◌, inl, inr, refl, arith, Option, none, some, Bytes, Option-cases,
  false, ◌&&◌, Bool-cases,
}
use virtualchime.ConfigStore.Types.{
  CoreConfigSnapshot, SaveRequest, StoreError, chime_open_failed, wpa_open_failed, ValidationError,
  SaveResult, success, validation_failed, failure,
}
use virtualchime.ConfigStore.Validate.{validate_request}
use virtualchime.ConfigStore.AtomicWrite.{WriteEnv, FileState, readable, atomic_write_file}
use virtualchime.ConfigStore.AtomicWrite.Atomic.{atomic_write_file_atomic}
use virtualchime.ConfigStore.ChimeFile.{join_lines}
use virtualchime.ConfigStore.Wpa.{edit_wpa, Edited, edited, rejected}
use virtualchime.ConfigStore.{
  Store, SaveEnv, load_with, read_all_lines, read_all_lines_if_exists, write_wpa, finish_save,
  save_chime_after, save_existing, opened, write_chime, edit_read, save_validated, load_core_config,
  save_core_config, save_wpa_supplicant, save_chime_config,
}

-- A write either succeeds and leaves a readable file, or fails and leaves the file alone.
abbrev Wrote : FileState → FileState × Option StoreError → Type 0
Wrote file p =
    ((text : Bytes) × (p.0 ≡ readable text) × (p.1 ≡ none))
    ⊎ ((error : StoreError) × (p.0 ≡ file) × (p.1 ≡ some error))

atomic-Wrote :
    (env : WriteEnv) (text : Bytes) (file : FileState)
    → Wrote file (atomic_write_file env text file)
atomic-Wrote env text file =
    let (file', result) = atomic_write_file env text file in
    elim (atomic_write_file_atomic env text file) [
      | inr (same, ok) ↦ inl (text, same, ok)
      | inl (same, bad) ↦ elim (Option-cases result) [
        | inl ok ↦ absurd (bad ok)
        | inr (error, e) ↦ inr (error, same, e)
      ]
    ]

write_chime-Wrote :
    (env : WriteEnv) (request : SaveRequest) (existing : CoreConfigSnapshot) (file : FileState)
    (lines : Option (List Bytes))
    → Wrote file (write_chime env request existing file lines)
write_chime-Wrote env request existing file none = inr (chime_open_failed, refl, refl)
write_chime-Wrote env request existing file (some lines) = atomic-Wrote env _ file

save_chime_config-Wrote :
    (env : SaveEnv) (request : SaveRequest) (existing : CoreConfigSnapshot) (file : FileState)
    → Wrote file (save_chime_config env request existing file)
unfolding save_chime_config
save_chime_config-Wrote env request existing file =
    write_chime-Wrote env.chime_write request existing file
      (read_all_lines (opened env.chime_opens file))

write_wpa-Wrote :
    (env : WriteEnv) (file : FileState) (e : Edited) → Wrote file (write_wpa env file e)
write_wpa-Wrote env file (rejected error) = inr (error, refl, refl)
write_wpa-Wrote env file (edited lines) = atomic-Wrote env (join_lines lines) file

edit_read-Wrote :
    (env : WriteEnv) (request : SaveRequest) (file : FileState) (lines : Option (List Bytes))
    → Wrote file (edit_read env request file lines)
edit_read-Wrote env request file none = inr (wpa_open_failed, refl, refl)
edit_read-Wrote env request file (some lines) = write_wpa-Wrote env file (edit_wpa request lines)

save_wpa_supplicant-Wrote :
    (env : SaveEnv) (request : SaveRequest) (file : FileState)
    → Wrote file (save_wpa_supplicant env request file)
unfolding save_wpa_supplicant
save_wpa_supplicant-Wrote env request file =
    edit_read-Wrote env.wpa_write request file
      (read_all_lines_if_exists (opened env.wpa_opens file))

abbrev pub two_files : Bytes → Bytes → Store
two_files chime wpa = record { chime_conf = readable chime; wpa_conf = readable wpa }

-- How a save can end.
pub data Ends (env : SaveEnv) (request : SaveRequest) (store : Store)
    : Store × SaveResult → Type 0 where
  saved :
      (snapshot : CoreConfigSnapshot) (wpa chime : Bytes)
      → validate_request request ≡ []
      → load_core_config (two_files chime wpa) ≡ success snapshot
      → Ends env request store (two_files chime wpa, success snapshot)
  invalid :
      (errors : List ValidationError)
      → validate_request request ≡ errors
      → errors ≢ []
      → Ends env request store (store, validation_failed errors)
  untouched : (error : StoreError) → Ends env request store (store, failure error)
  half_saved :
      (wpa : Bytes) (error : StoreError)
      → Ends env request store (record store { wpa_conf = readable wpa }, failure error)
  not_shown :
      (wpa chime : Bytes) (error : StoreError)
      → validate_request request ≡ []
      → (env.written_wpa_opens && env.written_chime_opens) ≡ false
      → Ends env request store (two_files chime wpa, failure error)

load_with-not-invalid :
    (chime wpa : Option (List Bytes)) (errors : List ValidationError)
    → load_with chime wpa ≢ validation_failed errors
load_with-not-invalid none wpa errors = ground arith
load_with-not-invalid (some chime) none errors = ground arith
load_with-not-invalid (some chime) (some wpa) errors = ground arith

load-not-invalid :
    (store : Store) (errors : List ValidationError)
    → load_core_config store ≢ validation_failed errors
unfolding load_core_config
load-not-invalid store errors =
    load_with-not-invalid (read_all_lines store.chime_conf)
      (read_all_lines_if_exists store.wpa_conf) errors

module _ (request : SaveRequest) (store : Store) where
  written :
      (env : SaveEnv) (wpa chime : Bytes)
      → validate_request request ≡ []
      → Ends env request store (finish_save env (readable wpa) (readable chime, none))
  unfolding load_core_config
  written env wpa chime v = elim (Bool-cases env.written_chime_opens) [
    | inr e ↦ rw e (not_shown wpa chime chime_open_failed v (ground (arith, e)))
    | inl e ↦ elim (Bool-cases env.written_wpa_opens) [
      | inr f ↦ rw (e, f) (not_shown wpa chime wpa_open_failed v (ground (arith, f)))
      | inl f ↦ rw (e, f) (saved _ wpa chime v refl)
    ]
  ]

  finish_save-Ends :
      (env : SaveEnv) (wpa : Bytes) (p : FileState × Option StoreError)
      → validate_request request ≡ []
      → Wrote store.chime_conf p
      → Ends env request store (finish_save env (readable wpa) p)
  finish_save-Ends env wpa p v (inl (text, same, ok)) =
      let whole : p ≡ (readable text, none) = ground (arith, same, ok) in
      rw whole (written env wpa text v)
  finish_save-Ends env wpa p v (inr (error, same, bad)) =
      let whole : p ≡ (store.chime_conf, some error) = ground (arith, same, bad) in
      rw whole (half_saved wpa error)

  save_chime_after-Ends :
      (env : SaveEnv) (existing : CoreConfigSnapshot) (p : FileState × Option StoreError)
      → validate_request request ≡ []
      → Wrote store.wpa_conf p
      → Ends env request store (save_chime_after env request existing store p)
  save_chime_after-Ends env existing p v (inl (text, same, ok)) =
      let whole : p ≡ (readable text, none) = ground (arith, same, ok) in
      rw whole (
        finish_save-Ends env text (save_chime_config env request existing store.chime_conf) v
          (save_chime_config-Wrote env request existing store.chime_conf))
  save_chime_after-Ends env existing p v (inr (error, same, bad)) =
      let whole : p ≡ (store.wpa_conf, some error) = ground (arith, same, bad) in
      rw whole (untouched error)

  save_existing-Ends :
      (env : SaveEnv) (loaded : SaveResult)
      → validate_request request ≡ []
      → ((errors : List ValidationError) → loaded ≢ validation_failed errors)
      → Ends env request store (save_existing env request store loaded)
  save_existing-Ends env (success existing) v h =
      save_chime_after-Ends env existing (save_wpa_supplicant env request store.wpa_conf) v
        (save_wpa_supplicant-Wrote env request store.wpa_conf)
  save_existing-Ends env (validation_failed errors) v h = absurd (h errors refl)
  save_existing-Ends env (failure error) v h = untouched error

  save_validated-Ends :
      (env : SaveEnv) (errors : List ValidationError)
      → validate_request request ≡ errors
      → Ends env request store (save_validated env request store errors)
  save_validated-Ends env [] v =
      save_existing-Ends env (load_core_config store) v (load-not-invalid store)
  save_validated-Ends env (e ∷ errors) v = invalid (e ∷ errors) v (ground arith)

  -- Whatever the request, the files and the system calls: a save that succeeds had a valid request
  -- and leaves two readable files that load as the snapshot it returns; for an invalid request it
  -- returns the validation errors and leaves both files alone; a save that fails leaves both files
  -- alone, or changes wpa_supplicant.conf only, or has written both and one of them could not be
  -- opened to be loaded again.
  pub save_core_config-Ends :
      (env : SaveEnv) → Ends env request store (save_core_config env request store)
  unfolding save_core_config
  save_core_config-Ends env = save_validated-Ends env (validate_request request) refl
