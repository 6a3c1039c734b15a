-- ===== src/WebServer/Texts.antt =====
-- The response texts of chime/src/webd/web_server.cpp, and the lines of the files it shows.
use virtualchime.Base.{
  ◌||◌, List, [], ◌∷◌, ◌++◌, map, Option, none, some, if◌then◌else◌, is_empty, Bytes, codes, member,
  bytes_eq, pos,
}
use virtualchime.Text.{trim, get_lines, to_string}
use virtualchime.KvConfig.{key_value}
use virtualchime.Json.{json_string, json_bool, json_number}
use virtualchime.ConfigStore.Types.{ValidationError, CoreConfigSnapshot}
use virtualchime.ApplyManager.{ApplyStatus, ApplyState, idle, pending, running, failed, succeeded}
use virtualchime.WifiScan.{WifiNetwork}
use virtualchime.WebServer.{text_field, object_text, array_text}

-- `SerializeValidationErrors`.
unfoldable pub serialize_validation_errors : List ValidationError → Bytes
unfolding json_string
serialize_validation_errors errors = array_text (
    map
      (λ (e : ValidationError).
        object_text
          (text_field (codes "field") e.field ∷ text_field (codes "message") e.message ∷ []))
      errors)

-- `SerializeTopics`.
unfoldable pub serialize_topics : List Bytes → Bytes
unfolding json_string
serialize_topics topics = array_text (map json_string topics)

-- The string of a state.
abbrev pub state_text : ApplyState → Bytes
state_text idle = codes "idle"
state_text pending = codes "pending"
state_text running = codes "running"
state_text failed = codes "failed"
state_text succeeded = codes "succeeded"

-- `SerializeApplyStatus`.
unfoldable pub serialize_apply_status : ApplyStatus → Bytes
unfolding json_string to_string
serialize_apply_status status = object_text (
    (codes "job_id", to_string (pos status.job_id))
    ∷ text_field (codes "state") (state_text status.state)
    ∷ text_field (codes "started_at_utc") status.started_at_utc
    ∷ text_field (codes "finished_at_utc") status.finished_at_utc
    ∷ text_field (codes "error") status.error
    ∷ [])

-- The body that `HandleGetCoreConfig` and `HandlePostCoreConfig` both write on success.
unfoldable pub core_config_text : CoreConfigSnapshot → ApplyStatus → Bytes
unfolding json_string json_bool json_number serialize_topics serialize_apply_status
core_config_text snapshot apply =
    let config = snapshot.config in
    object_text (
      text_field (codes "wifi_ssid") config.wifi_ssid
      ∷ (codes "wifi_password_set", json_bool snapshot.wifi_password_set)
      ∷ text_field (codes "mqtt_host") config.mqtt_host
      ∷ (codes "mqtt_port", json_number config.mqtt_port)
      ∷ text_field (codes "mqtt_client_id") config.mqtt_client_id
      ∷ text_field (codes "mqtt_username") config.mqtt_username
      ∷ (codes "mqtt_password_set", json_bool snapshot.mqtt_password_set)
      ∷ (codes "mqtt_tls_enabled", json_bool config.mqtt_tls_enabled)
      ∷ (codes "mqtt_tls_validate_certificate", json_bool config.mqtt_tls_validate_certificate)
      ∷ text_field (codes "mqtt_tls_ca_file") config.mqtt_tls_ca_file
      ∷ text_field (codes "mqtt_tls_cert_file") config.mqtt_tls_cert_file
      ∷ text_field (codes "mqtt_tls_key_file") config.mqtt_tls_key_file
      ∷ (codes "mqtt_topics", serialize_topics config.mqtt_topics)
      ∷ text_field (codes "ring_topic") config.ring_topic
      ∷ text_field (codes "notification_success_sound_path") config.notification_success_sound_path
      ∷ text_field (codes "notification_failure_sound_path") config.notification_failure_sound_path
      ∷ (codes "volume_bell", json_number config.volume_bell)
      ∷ (codes "volume_notifications", json_number config.volume_notifications)
      ∷ (codes "volume_other", json_number config.volume_other)
      ∷ (codes "apply", serialize_apply_status apply)
      ∷ [])

-- The body of `HandleWifiScan`.
unfoldable pub networks_text : List WifiNetwork → Bytes
unfolding json_string json_number
networks_text networks = object_text (
    (
      codes "networks",
      array_text (
          map
            (λ (n : WifiNetwork). object_text (
              text_field (codes "ssid") n.ssid
              ∷ (codes "signal_dbm", json_number n.signal_dbm)
              ∷ text_field (codes "security") n.security
              ∷ []))
            networks),
    )
    ∷ [])

abbrev observed_loop : List Bytes → List Bytes → List Bytes
observed_loop topics [] = topics
observed_loop topics (line ∷ lines) =
    let topic = trim line in
    observed_loop (if is_empty topic || member topic topics then topics else topics ++ topic ∷ [])
      lines

-- `ReadObservedTopicsFromFile`; the set of the topics seen has what `topics` has. No content
-- where the file cannot be opened.
unfoldable pub read_observed_topics : Option Bytes → List Bytes
unfolding trim member get_lines
read_observed_topics none = []
read_observed_topics (some content) = observed_loop [] (get_lines content)

abbrev first_line : List Bytes → Bytes
first_line [] = []
first_line (line ∷ lines) = line

-- `ReadTrimmedFirstLine`.
pub read_trimmed_first_line : Option Bytes → Bytes
unfolding trim get_lines
read_trimmed_first_line none = []
read_trimmed_first_line (some content) = trim (first_line (get_lines content))

-- `values[key] = value`.
unfoldable pub assign : Bytes → Bytes → List (Bytes × Bytes) → List (Bytes × Bytes)
unfolding bytes_eq
assign key value [] = (key, value) ∷ []
assign key value ((k, v) ∷ values) =
    let later = assign key value values in
    if bytes_eq key k then (k, value) ∷ values else (k, v) ∷ later

unfoldable pub find_value : Bytes → List (Bytes × Bytes) → Option Bytes
unfolding bytes_eq
find_value key [] = none
find_value key ((k, v) ∷ values) =
    let later = find_value key values in if bytes_eq key k then some v else later

abbrev assign_line : Option (Bytes × Bytes) → List (Bytes × Bytes) → List (Bytes × Bytes)
assign_line none values = values
assign_line (some (key, value)) values = if is_empty key then values else assign key value values

abbrev values_loop : List (Bytes × Bytes) → List Bytes → List (Bytes × Bytes)
values_loop values [] = values
values_loop values (line ∷ lines) = values_loop (assign_line (key_value line) values) lines

-- `ReadKeyValueFile`.
pub read_key_value_file : Option Bytes → List (Bytes × Bytes)
unfolding assign key_value get_lines
read_key_value_file none = []
read_key_value_file (some content) = values_loop [] (get_lines content)

abbrev not_blank : Option Bytes → Bytes → Bytes
not_blank none fallback = fallback
not_blank (some value) fallback = if is_empty value then fallback else value

-- `ReadValueOrDefault`.
pub read_value_or_default : List (Bytes × Bytes) → Bytes → Bytes → Bytes
unfolding find_value
read_value_or_default values key fallback = not_blank (find_value key values) fallback

-- The body of `HandleGetSystemVersion`, from its two files.
unfoldable pub system_version_text : (release app_version : Option Bytes) → Bytes
unfolding json_string read_key_value_file read_value_or_default read_trimmed_first_line
system_version_text release app_version =
    let values = read_key_value_file release in
    let unknown = codes "unknown" in
    let get = read_value_or_default values in
    let fallback = get (codes "CHIME_APP_VERSION_FULL") (get (codes "CHIME_APP_VERSION") unknown) in
    let from_file = read_trimmed_first_line app_version in
    let chime_version = if is_empty from_file then fallback else from_file in
    let os_version =
      get (codes "VIRTUALCHIME_OS_VERSION_FULL") (get (codes "VIRTUALCHIME_OS_VERSION") unknown) in
    object_text (
      text_field (codes "chime_version") chime_version
      ∷ text_field (codes "os_version") os_version
      ∷ text_field (codes "config_version") (get (codes "CHIME_CONFIG_VERSION") unknown)
      ∷ [])
