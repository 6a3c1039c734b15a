-- ===== src/WebServer/CoreConfig/PostKept.antt =====
-- What `HandlePostCoreConfig` of chime/src/webd/web_server.cpp writes for the body that
-- `HandleGetCoreConfig` wrote.
use virtualchime.Base.{[], ◌≡◌, ◌≢◌, some, true, false, Bytes, is_empty, value_or}
use virtualchime.Text.{trim, get_lines}
use virtualchime.Text.Lines.{is_line}
use virtualchime.Json.Quoted.{cleaned}
use virtualchime.ConfigStore.Types.{
  CoreConfig, CoreConfigSnapshot, SaveResult, StoreError, success, failure,
}
use virtualchime.ConfigStore.AtomicWrite.{FileState, readable}
use virtualchime.ConfigStore.ChimeFile.{extract_config_value, find, replacements_of}
use virtualchime.ConfigStore.ChimeFile.Written.{are_lines}
use virtualchime.ConfigStore.Wpa.{parse_wpa_data, with_header}
use virtualchime.ConfigStore.Wpa.Lines.{Holds}
use virtualchime.ConfigStore.{Store, read_all_lines_if_exists}
use virtualchime.ConfigStore.Saving.{two_files}
use virtualchime.ConfigStore.Contents.{Contents}
use virtualchime.WebServer.CoreConfig.PostBack.{shown_config}

-- The password that wpa_supplicant.conf holds.
abbrev pub stored_psk : FileState → Bytes
stored_psk file = (parse_wpa_data (with_header (value_or (read_all_lines_if_exists file) []))).psk

-- A configuration whose shown fields and password have no newline, and whose user name is not empty
-- and is shown as it is.
pub record IsShowable (config : CoreConfig) (file : FileState) : Type 0 where
  pub has_username : is_empty config.mqtt_username ≡ false
  pub same_username : cleaned config.mqtt_username ≡ config.mqtt_username
  pub chime_lines : are_lines (replacements_of (shown_config config) config.mqtt_password) ≡ true
  pub ssid_line : is_line (cleaned config.wifi_ssid) ≡ true
  pub psk_line : is_line (stored_psk file) ≡ true

module _ (config : CoreConfig) (store : Store) where
  -- The text reads back as every shown field, and the broker's password.
  abbrev KeepsChime : Bytes → Type 0
  KeepsChime chime =
      (k w : Bytes)
      → find k (replacements_of (shown_config config) config.mqtt_password) ≡ some w
      → extract_config_value (get_lines chime) k ≡ trim w

  -- The text reads back as the shown network name, and the network's password.
  abbrev KeepsWpa : Bytes → Type 0
  KeepsWpa wpa =
      Holds (cleaned config.wifi_ssid) (stored_psk store.wpa_conf) (parse_wpa_data (get_lines wpa))

  -- How the save ends.
  pub data Kept : Store × SaveResult → Type 0 where
    unchanged :
        (result : SaveResult)
        → ((snapshot : CoreConfigSnapshot) → result ≢ success snapshot)
        → Kept (store, result)
    wpa_only :
        (wpa : Bytes) (error : StoreError)
        → KeepsWpa wpa
        → Kept (record store { wpa_conf = readable wpa }, failure error)
    both :
        (chime wpa : Bytes) (result : SaveResult)
        → KeepsChime chime
        → KeepsWpa wpa
        → Kept (two_files chime wpa, result)
