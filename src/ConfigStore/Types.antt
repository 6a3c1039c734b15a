-- ===== src/ConfigStore/Types.antt =====
-- The data of chime/include/chime/webd_types.h, and the errors of the configuration store.
use virtualchime.Base.{Bool, List, Option, Bytes, ℤ}

pub record ValidationError : Type 0 where
  pub field : Bytes
  pub message : Bytes

pub record CoreConfig : Type 0 where
  pub wifi_ssid : Bytes
  pub mqtt_host : Bytes
  pub mqtt_port : ℤ
  pub mqtt_client_id : Bytes
  pub mqtt_username : Bytes
  pub mqtt_password : Bytes
  pub mqtt_tls_enabled : Bool
  pub mqtt_tls_validate_certificate : Bool
  pub mqtt_tls_ca_file : Bytes
  pub mqtt_tls_cert_file : Bytes
  pub mqtt_tls_key_file : Bytes
  pub mqtt_topics : List Bytes
  pub ring_topic : Bytes
  pub notification_success_sound_path : Bytes
  pub notification_failure_sound_path : Bytes
  pub volume_bell : ℤ
  pub volume_notifications : ℤ
  pub volume_other : ℤ

pub record CoreConfigSnapshot : Type 0 where
  pub config : CoreConfig
  pub wifi_password_set : Bool
  pub mqtt_password_set : Bool

pub record SaveRequest : Type 0 where
  pub config : CoreConfig
  pub wifi_password : Option Bytes
  pub mqtt_password : Option Bytes

-- The error texts, without what `strerror` adds.
pub data StoreError : Type 0 where
  chime_open_failed wpa_open_failed : StoreError
  directory_failed mkstemp_failed fchmod_failed write_failed fsync_failed : StoreError
  close_failed rename_failed : StoreError
  password_blank password_missing : StoreError

-- `SaveResult`: success with the snapshot, `validation_failed` with the errors, or an error.
pub data SaveResult : Type 0 where
  success : CoreConfigSnapshot → SaveResult
  validation_failed : List ValidationError → SaveResult
  failure : StoreError → SaveResult
