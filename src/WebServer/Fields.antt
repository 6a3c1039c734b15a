-- ===== src/WebServer/Fields.antt =====
-- The readers of a JSON payload in chime/src/webd/web_server.cpp, and the request that
-- `HandlePostCoreConfig` makes of what they read. `D` is the type of doubles; `exact_int` is the
-- int that has the double's value, none where there is none.
use virtualchime.Base.{
  ℕ, suc, Bool, false, not, ◌||◌, List, [], ◌∷◌, ◌++◌, Option, none, some, Bytes, codes, ℤ, pos,
  value_or, is_some,
}
use virtualchime.Text.{nat_to_string}
use virtualchime.Json.{JsonValue, null, bool, number, string, array, object, Items, nil, item}
use virtualchime.Json.Parser.{get_object_field}
use virtualchime.ConfigStore.Types.{ValidationError, CoreConfig, CoreConfigSnapshot, SaveRequest}

-- What a reader returns, and the errors that it pushes.
abbrev pub Read : Type 0 → Type 0
Read A = Option A × List ValidationError

abbrev field_error : {A : Type 0} → Bytes → Bytes → Read A
field_error key text = (none, record { field = key; message = key ++ text } ∷ [])

abbrev whole_read : Bytes → Option ℤ → Read ℤ
whole_read key none = field_error key (codes " must be an integer")
whole_read key (some z) = (some z, [])

abbrev entry_error :
    Bytes → ℕ → List Bytes × List ValidationError → List Bytes × List ValidationError
entry_error key i (output, errors) = (
  output,
  record {
    field = key;
    message = key ++ (codes "[" ++ (nat_to_string i ++ codes "] must be a string"));
  }
      ∷ errors,
)

abbrev array_output : List Bytes × List ValidationError → Read (List Bytes)
array_output (output, errors) = (some output, errors)

module _ {D : Type 0} where
  abbrev string_read : Bytes → JsonValue D → Read Bytes
  string_read key (string s) = (some s, [])
  string_read key null = field_error key (codes " must be a string")
  string_read key (bool b) = field_error key (codes " must be a string")
  string_read key (number d) = field_error key (codes " must be a string")
  string_read key (array items) = field_error key (codes " must be a string")
  string_read key (object fields) = field_error key (codes " must be a string")

  abbrev bool_read : Bytes → JsonValue D → Read Bool
  bool_read key (bool b) = (some b, [])
  bool_read key null = field_error key (codes " must be a boolean")
  bool_read key (number d) = field_error key (codes " must be a boolean")
  bool_read key (string s) = field_error key (codes " must be a boolean")
  bool_read key (array items) = field_error key (codes " must be a boolean")
  bool_read key (object fields) = field_error key (codes " must be a boolean")

  abbrev int_read : (D → Option ℤ) → Bytes → JsonValue D → Read ℤ
  int_read exact_int key (number d) = whole_read key (exact_int d)
  int_read exact_int key null = field_error key (codes " must be a number")
  int_read exact_int key (bool b) = field_error key (codes " must be a number")
  int_read exact_int key (string s) = field_error key (codes " must be a number")
  int_read exact_int key (array items) = field_error key (codes " must be a number")
  int_read exact_int key (object fields) = field_error key (codes " must be a number")

  -- The loop over the items from the `i`-th on: the strings, and the errors of the others.
  unfoldable pub strings_read : Bytes → ℕ → Items D → List Bytes × List ValidationError
  strings_read key i nil = ([], [])
  strings_read key i (item (string s) items) =
      (let (output, errors) = strings_read key (suc i) items in (s ∷ output, errors))
  strings_read key i (item null items) = entry_error key i (strings_read key (suc i) items)
  strings_read key i (item (bool b) items) = entry_error key i (strings_read key (suc i) items)
  strings_read key i (item (number d) items) = entry_error key i (strings_read key (suc i) items)
  strings_read key i (item (array xs) items) = entry_error key i (strings_read key (suc i) items)
  strings_read key i (item (object fs) items) = entry_error key i (strings_read key (suc i) items)

  abbrev pub array_read : Bytes → JsonValue D → Read (List Bytes)
  unfolding strings_read
  array_read key (array items) = array_output (strings_read key 0 items)
  array_read key null = field_error key (codes " must be an array")
  array_read key (bool b) = field_error key (codes " must be an array")
  array_read key (number d) = field_error key (codes " must be an array")
  array_read key (string s) = field_error key (codes " must be an array")
  array_read key (object fields) = field_error key (codes " must be an array")

  -- A field that has to be there.
  abbrev required_read :
      {A : Type 0} → (Bytes → JsonValue D → Read A) → Bytes → Option (JsonValue D) → Read A
  required_read reader key none = field_error key (codes " is required")
  required_read reader key (some value) = reader key value

  abbrev optional_read :
      {A : Type 0} → (Bytes → JsonValue D → Read A) → Bytes → Option (JsonValue D) → Read A
  optional_read reader key none = (none, [])
  optional_read reader key (some value) = reader key value

  -- `ReadRequiredString`.
  unfoldable pub read_required_string : JsonValue D → Bytes → Read Bytes
  unfolding get_object_field
  read_required_string value key = required_read string_read key (get_object_field value key)

  -- `ReadRequiredInt`.
  unfoldable pub read_required_int : (D → Option ℤ) → JsonValue D → Bytes → Read ℤ
  unfolding get_object_field
  read_required_int exact_int value key =
      required_read (int_read exact_int) key (get_object_field value key)

  -- `ReadRequiredBool`.
  unfoldable pub read_required_bool : JsonValue D → Bytes → Read Bool
  unfolding get_object_field
  read_required_bool value key = required_read bool_read key (get_object_field value key)

  -- `ReadRequiredStringArray`.
  unfoldable pub read_required_string_array : JsonValue D → Bytes → Read (List Bytes)
  unfolding get_object_field array_read
  read_required_string_array value key = required_read array_read key (get_object_field value key)

  -- `ReadOptionalString`.
  unfoldable pub read_optional_string : JsonValue D → Bytes → Read Bytes
  unfolding get_object_field
  read_optional_string value key = optional_read string_read key (get_object_field value key)

-- The values that `HandlePostCoreConfig` reads, in its order.
pub record Payload : Type 0 where
  pub wifi_ssid : Read Bytes
  pub mqtt_host : Read Bytes
  pub mqtt_port : Read ℤ
  pub mqtt_client_id : Read Bytes
  pub mqtt_username : Read Bytes
  pub mqtt_tls_enabled : Read Bool
  pub mqtt_tls_validate_certificate : Read Bool
  pub mqtt_tls_ca_file : Read Bytes
  pub mqtt_tls_cert_file : Read Bytes
  pub mqtt_tls_key_file : Read Bytes
  pub mqtt_topics : Read (List Bytes)
  pub ring_topic : Read Bytes
  pub notification_success_sound_path : Read Bytes
  pub notification_failure_sound_path : Read Bytes
  pub volume_bell : Read ℤ
  pub volume_notifications : Read ℤ
  pub volume_other : Read ℤ
  pub wifi_password : Read Bytes
  pub mqtt_password : Read Bytes

unfoldable pub read_payload : {D : Type 0} → (D → Option ℤ) → JsonValue D → Payload
unfolding read_required_string read_required_int read_required_bool read_required_string_array
    read_optional_string
read_payload exact_int value = record {
  wifi_ssid = read_required_string value (codes "wifi_ssid");
  mqtt_host = read_required_string value (codes "mqtt_host");
  mqtt_port = read_required_int exact_int value (codes "mqtt_port");
  mqtt_client_id = read_required_string value (codes "mqtt_client_id");
  mqtt_username = read_required_string value (codes "mqtt_username");
  mqtt_tls_enabled = read_required_bool value (codes "mqtt_tls_enabled");
  mqtt_tls_validate_certificate = read_required_bool value (codes "mqtt_tls_validate_certificate");
  mqtt_tls_ca_file = read_required_string value (codes "mqtt_tls_ca_file");
  mqtt_tls_cert_file = read_required_string value (codes "mqtt_tls_cert_file");
  mqtt_tls_key_file = read_required_string value (codes "mqtt_tls_key_file");
  mqtt_topics = read_required_string_array value (codes "mqtt_topics");
  ring_topic = read_required_string value (codes "ring_topic");
  notification_success_sound_path =
      read_optional_string value (codes "notification_success_sound_path");
  notification_failure_sound_path =
      read_optional_string value (codes "notification_failure_sound_path");
  volume_bell = read_required_int exact_int value (codes "volume_bell");
  volume_notifications = read_required_int exact_int value (codes "volume_notifications");
  volume_other = read_required_int exact_int value (codes "volume_other");
  wifi_password = read_optional_string value (codes "wifi_password");
  mqtt_password = read_optional_string value (codes "mqtt_password");
}

-- `parse_errors`, behind the last reader.
abbrev pub parse_errors : Payload → List ValidationError
parse_errors p =
    p.wifi_ssid.1
    ++ (p.mqtt_host.1
        ++ (p.mqtt_port.1
            ++ (p.mqtt_client_id.1
                ++ (p.mqtt_username.1
                    ++ (p.mqtt_tls_enabled.1
                        ++ (p.mqtt_tls_validate_certificate.1
                            ++ (p.mqtt_tls_ca_file.1
                                ++ (p.mqtt_tls_cert_file.1
                                    ++ (p.mqtt_tls_key_file.1
                                        ++ (p.mqtt_topics.1
                                            ++ (p.ring_topic.1
                                                ++ (p.notification_success_sound_path.1
                                                    ++ (p.notification_failure_sound_path.1
                                                        ++ (p.volume_bell.1
                                                            ++ (p.volume_notifications.1
                                                            ++ (p.volume_other.1
                                                            ++ (p.wifi_password.1
                                                            ++ p.mqtt_password.1)))))))))))))))))

-- Whether the snapshot has to be loaded for a sound path that is not given.
abbrev pub lacks_sound : Payload → Bool
lacks_sound p =
    not (is_some p.notification_success_sound_path.0)
    || not (is_some p.notification_failure_sound_path.0)

abbrev existing_sound : Option CoreConfigSnapshot → (CoreConfig → Bytes) → Bytes → Bytes
existing_sound none path default = default
existing_sound (some snapshot) path default = path snapshot.config

-- The `SaveRequest`. A field that had no error has a value, so the defaults of the fields that
-- have to be there are never taken.
unfoldable pub save_request_of : Payload → Option CoreConfigSnapshot → SaveRequest
save_request_of p existing = record {
  config = record {
    wifi_ssid = value_or p.wifi_ssid.0 [];
    mqtt_host = value_or p.mqtt_host.0 [];
    mqtt_port = value_or p.mqtt_port.0 (pos 1883);
    mqtt_client_id = value_or p.mqtt_client_id.0 [];
    mqtt_username = value_or p.mqtt_username.0 [];
    mqtt_password = [];
    mqtt_tls_enabled = value_or p.mqtt_tls_enabled.0 false;
    mqtt_tls_validate_certificate = value_or p.mqtt_tls_validate_certificate.0 false;
    mqtt_tls_ca_file = value_or p.mqtt_tls_ca_file.0 [];
    mqtt_tls_cert_file = value_or p.mqtt_tls_cert_file.0 [];
    mqtt_tls_key_file = value_or p.mqtt_tls_key_file.0 [];
    mqtt_topics = value_or p.mqtt_topics.0 [];
    ring_topic = value_or p.ring_topic.0 [];
    notification_success_sound_path = value_or p.notification_success_sound_path.0 (
        existing_sound existing (λ config. config.notification_success_sound_path)
          (codes "/usr/local/share/chime/test.wav"));
    notification_failure_sound_path = value_or p.notification_failure_sound_path.0 (
        existing_sound existing (λ config. config.notification_failure_sound_path)
          (codes "/usr/local/share/chime/ring.wav"));
    volume_bell = value_or p.volume_bell.0 (pos 80);
    volume_notifications = value_or p.volume_notifications.0 (pos 70);
    volume_other = value_or p.volume_other.0 (pos 70);
  };
  wifi_password = p.wifi_password.0;
  mqtt_password = p.mqtt_password.0;
}
