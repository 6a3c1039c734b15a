-- ===== src/ChimeConfig.antt =====
-- `ChimeConfig` of chime/include/chime/chime_config.h and `LoadConfig` of
-- chime/src/config/chime_config.cpp: the fields of chime.conf and their setters.
pub mod Parsed
pub mod Port
pub mod Ranges
use virtualchime.Base.{
  if◌then◌else◌, ℕ, Bool, true, false, not, List, [], ◌∷◌, Option, none, some, is_empty, Bytes,
  codes, ℤ, pos,
}
use virtualchime.Text.{parse_bool, split_csv, strtol, c_str, in_range}
use virtualchime.KvConfig.{Field, LoadResult, load}

pub record ChimeConfig : Type 0 where
  pub host : Bytes
  pub port : ℤ
  pub client_id : Bytes
  pub mqtt_username : Bytes
  pub mqtt_password : Bytes
  pub mqtt_tls_enabled : Bool
  pub mqtt_tls_validate_certificate : Bool
  pub mqtt_tls_ca_file : Bytes
  pub mqtt_tls_cert_file : Bytes
  pub mqtt_tls_key_file : Bytes
  pub topics : List Bytes
  pub mqtt_subscribe_qos : ℤ
  pub heartbeat_interval : ℤ
  pub heartbeat_topic : Bytes
  pub ring_topic : Bytes
  pub sound_path : Bytes
  pub notification_success_sound_path : Bytes
  pub notification_failure_sound_path : Bytes
  pub volume_bell : ℤ
  pub volume_notifications : ℤ
  pub volume_other : ℤ
  pub audio_enabled : Bool
  pub wifi_interface : Bytes
  pub wifi_check_interval : ℤ

-- The member initialisers.
abbrev pub defaults : ChimeConfig
defaults = record {
  host = [];
  port = pos 0;
  client_id = codes "chime";
  mqtt_username = [];
  mqtt_password = [];
  mqtt_tls_enabled = false;
  mqtt_tls_validate_certificate = true;
  mqtt_tls_ca_file = [];
  mqtt_tls_cert_file = [];
  mqtt_tls_key_file = [];
  topics = [];
  mqtt_subscribe_qos = pos 0;
  heartbeat_interval = pos 60;
  heartbeat_topic = codes "chime/heartbeat";
  ring_topic = codes "doorbell/ring";
  sound_path = codes "/usr/local/share/chime/ring.wav";
  notification_success_sound_path = codes "/usr/local/share/chime/test.wav";
  notification_failure_sound_path = codes "/usr/local/share/chime/ring.wav";
  volume_bell = pos 80;
  volume_notifications = pos 70;
  volume_other = pos 70;
  audio_enabled = true;
  wifi_interface = codes "wlan0";
  wifi_check_interval = pos 5;
}

-- The setter templates of kv_config.h, over the assignment to the member.
abbrev pub string_field :
    (ChimeConfig → Bytes → ChimeConfig) → ChimeConfig → Bytes → ChimeConfig × Bool
string_field assign target value = (assign target value, true)

abbrev pub set_parsed {ℓ} :
    {A : Type ℓ} → (ChimeConfig → A → ChimeConfig) → ChimeConfig → Option A → ChimeConfig × Bool
set_parsed assign target none = (target, false)
set_parsed assign target (some v) = (assign target v, true)

-- What `parse_int` of kv_config.h accepts. It reads `*end` in a copy of the value that is already
-- destroyed: whether a zero byte is found there is a parameter.
unfoldable pub parse_int_field : (Bytes → Bool) → ℕ → ℕ → Bytes → Option ℤ
unfolding strtol c_str
parse_int_field finds_zero lo hi value =
    if finds_zero value then in_range lo hi (some ((strtol (c_str value)).0)) else none

abbrev pub int_field :
    (Bytes → Bool)
    → ℕ
    → ℕ
    → (ChimeConfig → ℤ → ChimeConfig)
    → ChimeConfig
    → Bytes
    → ChimeConfig × Bool
int_field finds_zero lo hi assign target value =
    set_parsed assign target (parse_int_field finds_zero lo hi value)

abbrev pub bool_field :
    (ChimeConfig → Bool → ChimeConfig) → ChimeConfig → Bytes → ChimeConfig × Bool
bool_field assign target value = set_parsed assign target (parse_bool value)

-- `parse_csv` assigns the list also where it is empty, and then returns false.
abbrev pub csv_field :
    (ChimeConfig → List Bytes → ChimeConfig) → ChimeConfig → Bytes → ChimeConfig × Bool
csv_field assign target value = (assign target (split_csv value), not (is_empty (split_csv value)))

abbrev field : Bytes → (ChimeConfig → Bytes → ChimeConfig × Bool) → Bool → Field ChimeConfig
field key setter required = record { key = key; setter = setter; required = required }

-- `kConfigFields`.
abbrev pub config_fields : (Bytes → Bool) → List (Field ChimeConfig)
config_fields finds_zero =
    field (codes "mqtt_host") (string_field (λ c v. record c { host = v })) true
    ∷ field (codes "mqtt_port") (int_field finds_zero 1 65535 (λ c v. record c { port = v })) true
    ∷ field (codes "mqtt_client_id") (string_field (λ c v. record c { client_id = v })) false
    ∷ field (codes "mqtt_username") (string_field (λ c v. record c { mqtt_username = v })) false
    ∷ field (codes "mqtt_password") (string_field (λ c v. record c { mqtt_password = v })) false
    ∷ field (codes "mqtt_tls_enabled") (bool_field (λ c v. record c { mqtt_tls_enabled = v })) false
    ∷ field (codes "mqtt_tls_validate_certificate")
        (bool_field (λ c v. record c { mqtt_tls_validate_certificate = v })) false
    ∷ field (codes "mqtt_tls_ca_file") (string_field (λ c v. record c { mqtt_tls_ca_file = v }))
        false
    ∷ field (codes "mqtt_tls_cert_file") (string_field (λ c v. record c { mqtt_tls_cert_file = v }))
        false
    ∷ field (codes "mqtt_tls_key_file") (string_field (λ c v. record c { mqtt_tls_key_file = v }))
        false
    ∷ field (codes "mqtt_topics") (csv_field (λ c v. record c { topics = v })) true
    ∷ field (codes "mqtt_subscribe_qos")
        (int_field finds_zero 0 2 (λ c v. record c { mqtt_subscribe_qos = v })) false
    ∷ field (codes "heartbeat_interval")
        (int_field finds_zero 0 3600 (λ c v. record c { heartbeat_interval = v })) false
    ∷ field (codes "heartbeat_topic") (string_field (λ c v. record c { heartbeat_topic = v })) false
    ∷ field (codes "ring_topic") (string_field (λ c v. record c { ring_topic = v })) false
    ∷ field (codes "sound_path") (string_field (λ c v. record c { sound_path = v })) false
    ∷ field (codes "notification_success_sound_path")
        (string_field (λ c v. record c { notification_success_sound_path = v })) false
    ∷ field (codes "notification_failure_sound_path")
        (string_field (λ c v. record c { notification_failure_sound_path = v })) false
    ∷ field (codes "volume_bell") (int_field finds_zero 0 100 (λ c v. record c { volume_bell = v }))
        false
    ∷ field (codes "volume_notifications")
        (int_field finds_zero 0 100 (λ c v. record c { volume_notifications = v })) false
    ∷ field (codes "volume_other")
        (int_field finds_zero 0 100 (λ c v. record c { volume_other = v })) false
    ∷ field (codes "audio_enabled") (bool_field (λ c v. record c { audio_enabled = v })) false
    ∷ field (codes "wifi_interface") (string_field (λ c v. record c { wifi_interface = v })) false
    ∷ field (codes "wifi_check_interval")
        (int_field finds_zero 0 3600 (λ c v. record c { wifi_check_interval = v })) false
    ∷ []

unfoldable pub load_config : (Bytes → Bool) → Option Bytes → LoadResult ChimeConfig
unfolding load parse_int_field parse_bool split_csv
load_config finds_zero content = load (config_fields finds_zero) defaults content
