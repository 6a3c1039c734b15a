-- ===== src/ConfigStore/Contents.antt =====
-- What `SaveCoreConfig` of chime/src/webd/config_store.cpp writes to the two files.
use virtualchime.Base.{
  List, [], ◌∷◌, ◌≡◌, ◌≢◌, ◌⊎◌, inl, inr, refl, arith, Option, none, some, Bytes, Option-cases,
  Bool, true, false,
}
use virtualchime.ConfigStore.Types.{
  CoreConfigSnapshot, SaveRequest, StoreError, chime_open_failed, wpa_open_failed, ValidationError,
  SaveResult, success, validation_failed, failure,
}
use virtualchime.ConfigStore.Validate.{validate_request}
use virtualchime.ConfigStore.AtomicWrite.{
  WriteEnv, FileState, missing, unreadable, readable, atomic_write_file,
}
use virtualchime.ConfigStore.AtomicWrite.Atomic.{atomic_write_file_atomic}
use virtualchime.ConfigStore.ChimeFile.{
  join_lines, update_lines, replacements_of, next_mqtt_password,
}
use virtualchime.ConfigStore.Wpa.{edit_wpa, Edited, edited, rejected}
use virtualchime.ConfigStore.{
  Store, SaveEnv, read_all_lines, read_all_lines_if_exists, write_wpa, finish_save, opened,
  write_chime, edit_read, save_chime_after, save_validated, load_core_config, save_core_config,
  save_wpa_supplicant, save_chime_config,
}
use virtualchime.ConfigStore.Saving.{two_files}

-- A write leaves a text of this kind, or fails and leaves the file alone.
abbrev Put : (Bytes → Type 0) → FileState → FileState × Option StoreError → Type 0
Put IsText file p =
    ((text : Bytes) × IsText text × (p.0 ≡ readable text) × (p.1 ≡ none))
    ⊎ ((error : StoreError) × (p.0 ≡ file) × (p.1 ≡ some error))

atomic-Put :
    (IsText : Bytes → Type 0) (env : WriteEnv) (text : Bytes) (file : FileState)
    → IsText text
    → Put IsText file (atomic_write_file env text file)
atomic-Put IsText env text file is =
    let (file', result) = atomic_write_file env text file in
    elim (atomic_write_file_atomic env text file) [
      | inr (same, ok) ↦ inl (text, is, same, ok)
      | inl (same, bad) ↦ elim (Option-cases result) [
        | inl ok ↦ absurd (bad ok)
        | inr (error, e) ↦ inr (error, same, e)
      ]
    ]

opened-lines :
    (opens : Bool) (file : FileState) (lines : List Bytes)
    → read_all_lines (opened opens file) ≡ some lines
    → read_all_lines file ≡ some lines
opened-lines true file lines h = h
opened-lines false missing lines h = h
opened-lines false unreadable lines h = h
opened-lines false (readable content) lines h = absurd (cc h)

opened-lines_if_exists :
    (opens : Bool) (file : FileState) (lines : List Bytes)
    → read_all_lines_if_exists (opened opens file) ≡ some lines
    → read_all_lines_if_exists file ≡ some lines
opened-lines_if_exists true file lines h = h
opened-lines_if_exists false missing lines h = h
opened-lines_if_exists false unreadable lines h = h
opened-lines_if_exists false (readable content) lines h = absurd (cc h)

module _ (request : SaveRequest) (existing : CoreConfigSnapshot) where
  -- The new text of chime.conf.
  pub record ChimeText (file : FileState) (text : Bytes) : Type 0 where
    pub old : List Bytes
    pub was : read_all_lines file ≡ some old
    pub is :
        text
        ≡ join_lines (
            update_lines (replacements_of request.config (next_mqtt_password request existing)) old)

  -- The new text of wpa_supplicant.conf.
  pub record WpaText (file : FileState) (text : Bytes) : Type 0 where
    pub old : List Bytes
    pub lines : List Bytes
    pub was : read_all_lines_if_exists file ≡ some old
    pub edits : edit_wpa request old ≡ edited lines
    pub is : text ≡ join_lines lines

  write_chime-Put :
      (env : WriteEnv) (file : FileState) (o : Option (List Bytes))
      → ((old : List Bytes) → o ≡ some old → read_all_lines file ≡ some old)
      → Put (ChimeText file) file (write_chime env request existing file o)
  write_chime-Put env file none h = inr (chime_open_failed, refl, refl)
  write_chime-Put env file (some old) h =
      atomic-Put (ChimeText file) env _ file (record { old = old; was = h old refl; is = refl })

  save_chime_config-Put :
      (env : SaveEnv) (file : FileState)
      → Put (ChimeText file) file (save_chime_config env request existing file)
  unfolding save_chime_config
  save_chime_config-Put env file =
      write_chime-Put env.chime_write file (read_all_lines (opened env.chime_opens file))
        (opened-lines env.chime_opens file)

  write_wpa-Put :
      (env : WriteEnv) (file : FileState) (old : List Bytes) (e : Edited)
      → read_all_lines_if_exists file ≡ some old
      → edit_wpa request old ≡ e
      → Put (WpaText file) file (write_wpa env file e)
  write_wpa-Put env file old (rejected error) h e = inr (error, refl, refl)
  write_wpa-Put env file old (edited lines) h e =
      atomic-Put (WpaText file) env (join_lines lines) file
        (record { old = old; lines = lines; was = h; edits = e; is = refl })

  edit_read-Put :
      (env : WriteEnv) (file : FileState) (o : Option (List Bytes))
      → ((old : List Bytes) → o ≡ some old → read_all_lines_if_exists file ≡ some old)
      → Put (WpaText file) file (edit_read env request file o)
  edit_read-Put env file none h = inr (wpa_open_failed, refl, refl)
  edit_read-Put env file (some old) h =
      write_wpa-Put env file old (edit_wpa request old) (h old refl) refl

  save_wpa_supplicant-Put :
      (env : SaveEnv) (file : FileState)
      → Put (WpaText file) file (save_wpa_supplicant env request file)
  unfolding save_wpa_supplicant
  save_wpa_supplicant-Put env file =
      edit_read-Put env.wpa_write file (read_all_lines_if_exists (opened env.wpa_opens file))
        (opened-lines_if_exists env.wpa_opens file)

  -- What the two files hold behind a save.
  pub data Contents (store : Store) : Store × SaveResult → Type 0 where
    unchanged :
        (result : SaveResult)
        → ((snapshot : CoreConfigSnapshot) → result ≢ success snapshot)
        → Contents store (store, result)
    wpa_only :
        (wpa : Bytes) (error : StoreError)
        → WpaText store.wpa_conf wpa
        → Contents store (record store { wpa_conf = readable wpa }, failure error)
    both :
        (chime wpa : Bytes) (result : SaveResult)
        → ChimeText store.chime_conf chime
        → WpaText store.wpa_conf wpa
        → Contents store (two_files chime wpa, result)

  module _ (store : Store) (env : SaveEnv) where
    finish_save-Contents :
        (wpa : Bytes) (p : FileState × Option StoreError)
        → WpaText store.wpa_conf wpa
        → Put (ChimeText store.chime_conf) store.chime_conf p
        → Contents store (finish_save env (readable wpa) p)
    finish_save-Contents wpa p w (inl (text, t, same, ok)) =
        let whole : p ≡ (readable text, none) = ground (arith, same, ok) in
        rw whole (both text wpa _ t w)
    finish_save-Contents wpa p w (inr (error, same, bad)) =
        let whole : p ≡ (store.chime_conf, some error) = ground (arith, same, bad) in
        rw whole (wpa_only wpa error w)

    save_chime_after-Contents :
        (p : FileState × Option StoreError)
        → Put (WpaText store.wpa_conf) store.wpa_conf p
        → Contents store (save_chime_after env request existing store p)
    save_chime_after-Contents p (inl (text, t, same, ok)) =
        let whole : p ≡ (readable text, none) = ground (arith, same, ok) in
        rw whole (
          finish_save-Contents text (save_chime_config env request existing store.chime_conf) t
            (save_chime_config-Put env store.chime_conf))
    save_chime_after-Contents p (inr (error, same, bad)) =
        let whole : p ≡ (store.wpa_conf, some error) = ground (arith, same, bad) in
        rw whole (unchanged (failure error) (λ s. ground arith))

    save_validated-Contents :
        (errors : List ValidationError)
        → load_core_config store ≡ success existing
        → Contents store (save_validated env request store errors)
    save_validated-Contents (e ∷ errors) h =
        unchanged (validation_failed (e ∷ errors)) (λ s. ground arith)
    save_validated-Contents [] h = rw h (
        save_chime_after-Contents (save_wpa_supplicant env request store.wpa_conf)
          (save_wpa_supplicant-Put env store.wpa_conf))

    pub save_core_config-Contents :
        load_core_config store ≡ success existing
        → Contents store (save_core_config env request store)
    unfolding save_core_config
    save_core_config-Contents h = save_validated-Contents (validate_request request) h
