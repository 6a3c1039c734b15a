-- ===== src/ConfigStore.antt =====
-- The configuration store, `ConfigStore` of chime/src/webd/config_store.cpp: loading and saving
-- over the two files. The file system's failures are in `SaveEnv`.
pub mod Types
pub mod Validate
pub mod AtomicWrite
pub mod ChimeFile
pub mod Wpa
pub mod Saving
pub mod Contents
use virtualchime.Base.{
  ℕ, Bool, true, false, not, List, [], ◌∷◌, Option, none, some, if◌then◌else◌, is_empty, Bytes,
  codes, ℤ, pos, value_or,
}
use virtualchime.Text.{get_lines, split_csv}
use virtualchime.ChimeConfig
use virtualchime.ConfigStore.Types.{
  ValidationError, CoreConfig, CoreConfigSnapshot, SaveRequest, StoreError, chime_open_failed,
  wpa_open_failed, SaveResult, success, validation_failed, failure,
}
use virtualchime.ConfigStore.Validate.{validate_request}
use virtualchime.ConfigStore.AtomicWrite.{
  FileState, missing, unreadable, readable, WriteEnv, atomic_write_file,
}
use virtualchime.ConfigStore.ChimeFile.{
  extract_config_value, store_parse_int, store_parse_bool, next_mqtt_password, replacements_of,
  update_lines, join_lines,
}
use virtualchime.ConfigStore.Wpa.{parse_wpa_data, edit_wpa, Edited, edited, rejected}

pub record Store : Type 0 where
  pub chime_conf : FileState
  pub wpa_conf : FileState

-- The outcomes of the two writes, and whether the files can be opened where `SaveCoreConfig` reads
-- them again: in `SaveWpaSupplicant`, in `SaveChimeConfig`, and to load what was written.
pub record SaveEnv : Type 0 where
  pub wpa_write : WriteEnv
  pub chime_write : WriteEnv
  pub wpa_opens : Bool
  pub chime_opens : Bool
  pub written_wpa_opens : Bool
  pub written_chime_opens : Bool

-- A file as a reader finds it that can open it or cannot.
abbrev pub opened : Bool → FileState → FileState
opened true file = file
opened false missing = missing
opened false unreadable = unreadable
opened false (readable content) = unreadable

-- `ReadAllLines`, none where the file cannot be opened.
abbrev pub read_all_lines : FileState → Option (List Bytes)
read_all_lines missing = none
read_all_lines unreadable = none
read_all_lines (readable content) = some (get_lines content)

-- `ReadAllLinesIfExists`.
abbrev pub read_all_lines_if_exists : FileState → Option (List Bytes)
read_all_lines_if_exists missing = some []
read_all_lines_if_exists unreadable = none
read_all_lines_if_exists (readable content) = some (get_lines content)

abbrev or_default : Bytes → Bytes → Bytes
or_default value fallback = if is_empty value then fallback else value

-- The part of `LoadCoreConfigInternal` that reads chime.conf's lines.
unfoldable pub chime_values : List Bytes → Bytes → CoreConfig
unfolding extract_config_value store_parse_int store_parse_bool split_csv
chime_values lines ssid =
    let get = extract_config_value lines in
    let defaults = ChimeConfig.defaults in
    record {
      wifi_ssid = ssid;
      mqtt_host = get (codes "mqtt_host");
      mqtt_port = value_or (store_parse_int (get (codes "mqtt_port")) 1 65535) (pos 1883);
      mqtt_client_id = or_default (get (codes "mqtt_client_id")) defaults.client_id;
      mqtt_username = get (codes "mqtt_username");
      mqtt_password = get (codes "mqtt_password");
      mqtt_tls_enabled =
          value_or (store_parse_bool (get (codes "mqtt_tls_enabled"))) defaults.mqtt_tls_enabled;
      mqtt_tls_validate_certificate =
          value_or (store_parse_bool (get (codes "mqtt_tls_validate_certificate")))
            defaults.mqtt_tls_validate_certificate;
      mqtt_tls_ca_file = get (codes "mqtt_tls_ca_file");
      mqtt_tls_cert_file = get (codes "mqtt_tls_cert_file");
      mqtt_tls_key_file = get (codes "mqtt_tls_key_file");
      mqtt_topics = split_csv (get (codes "mqtt_topics"));
      ring_topic = or_default (get (codes "ring_topic")) defaults.ring_topic;
      notification_success_sound_path =
          or_default (get (codes "notification_success_sound_path"))
            defaults.notification_success_sound_path;
      notification_failure_sound_path =
          or_default (get (codes "notification_failure_sound_path"))
            defaults.notification_failure_sound_path;
      volume_bell =
          value_or (store_parse_int (get (codes "volume_bell")) 0 100) defaults.volume_bell;
      volume_notifications =
          value_or (store_parse_int (get (codes "volume_notifications")) 0 100)
            defaults.volume_notifications;
      volume_other =
          value_or (store_parse_int (get (codes "volume_other")) 0 100) defaults.volume_other;
    }

abbrev pub snapshot_of : List Bytes → List Bytes → CoreConfigSnapshot
snapshot_of chime_lines wpa_lines =
    let wpa = parse_wpa_data wpa_lines in
    let config = chime_values chime_lines wpa.ssid in
    record {
      config = config;
      wifi_password_set = not (is_empty wpa.psk);
      mqtt_password_set = not (is_empty config.mqtt_password);
    }

abbrev load_with : Option (List Bytes) → Option (List Bytes) → SaveResult
load_with none wpa_lines = failure chime_open_failed
load_with (some chime_lines) none = failure wpa_open_failed
load_with (some chime_lines) (some wpa_lines) = success (snapshot_of chime_lines wpa_lines)

-- `LoadCoreConfig`.
unfoldable pub load_core_config : Store → SaveResult
unfolding chime_values parse_wpa_data get_lines
load_core_config store =
    load_with (read_all_lines store.chime_conf) (read_all_lines_if_exists store.wpa_conf)

abbrev write_chime :
    WriteEnv
    → SaveRequest
    → CoreConfigSnapshot
    → FileState
    → Option (List Bytes)
    → FileState × Option StoreError
write_chime env request existing file none = (file, some chime_open_failed)
write_chime env request existing file (some lines) =
    atomic_write_file env
      (join_lines
        (update_lines (replacements_of request.config (next_mqtt_password request existing)) lines))
      file

-- `SaveChimeConfig`: the file afterwards, and the error if it returns false.
pub save_chime_config :
    SaveEnv → SaveRequest → CoreConfigSnapshot → FileState → FileState × Option StoreError
unfolding atomic_write_file update_lines replacements_of next_mqtt_password get_lines
save_chime_config env request existing file =
    write_chime env.chime_write request existing file (read_all_lines (opened env.chime_opens file))

abbrev write_wpa : WriteEnv → FileState → Edited → FileState × Option StoreError
write_wpa env file (rejected error) = (file, some error)
write_wpa env file (edited lines) = atomic_write_file env (join_lines lines) file

abbrev edit_read :
    WriteEnv → SaveRequest → FileState → Option (List Bytes) → FileState × Option StoreError
edit_read env request file none = (file, some wpa_open_failed)
edit_read env request file (some lines) = write_wpa env file (edit_wpa request lines)

-- `SaveWpaSupplicant`.
pub save_wpa_supplicant : SaveEnv → SaveRequest → FileState → FileState × Option StoreError
unfolding atomic_write_file edit_wpa get_lines
save_wpa_supplicant env request file =
    edit_read env.wpa_write request file (read_all_lines_if_exists (opened env.wpa_opens file))

-- The end of `SaveCoreConfig`, behind the write of chime.conf: what was written is loaded, and the
-- failure of that is returned.
abbrev finish_save : SaveEnv → FileState → FileState × Option StoreError → Store × SaveResult
finish_save env wpa (chime, some error) =
    (record { chime_conf = chime; wpa_conf = wpa }, failure error)
finish_save env wpa (chime, none) = (
  record { chime_conf = chime; wpa_conf = wpa },
  load_core_config (record {
    chime_conf = opened env.written_chime_opens chime;
    wpa_conf = opened env.written_wpa_opens wpa;
  }),
)

abbrev save_chime_after :
    SaveEnv
    → SaveRequest
    → CoreConfigSnapshot
    → Store
    → FileState × Option StoreError
    → Store × SaveResult
save_chime_after env request existing store (wpa, some error) =
    (record store { wpa_conf = wpa }, failure error)
save_chime_after env request existing store (wpa, none) =
    finish_save env wpa (save_chime_config env request existing store.chime_conf)

abbrev save_existing : SaveEnv → SaveRequest → Store → SaveResult → Store × SaveResult
save_existing env request store (success existing) =
    save_chime_after env request existing store (save_wpa_supplicant env request store.wpa_conf)
save_existing env request store (validation_failed errors) = (store, validation_failed errors)
save_existing env request store (failure error) = (store, failure error)

abbrev save_validated : SaveEnv → SaveRequest → Store → List ValidationError → Store × SaveResult
save_validated env request store [] = save_existing env request store (load_core_config store)
save_validated env request store (e ∷ errors) = (store, validation_failed (e ∷ errors))

-- `SaveCoreConfig`: the files afterwards, and the result.
unfoldable pub save_core_config : SaveEnv → SaveRequest → Store → Store × SaveResult
unfolding validate_request load_core_config save_wpa_supplicant save_chime_config
save_core_config env request store = save_validated env request store (validate_request request)
