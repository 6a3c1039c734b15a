-- ===== src/ConfigStore/Validate.antt =====
-- `ConfigStore::ValidateRequest` and `IsTopicValid` of chime/src/webd/config_store.cpp.
pub mod Accepts
use virtualchime.Base.{
  ℕ, ◌+◌, Bool, true, false, not, ◌&&◌, ◌||◌, List, [], ◌∷◌, ◌++◌, Option, none, some, ltb, ◌==◌,
  if◌then◌else◌, length, is_empty, Bytes, codes, contains, ℤ, pos, ltb_ℤ,
}
use virtualchime.Text.{trim, to_string}
use virtualchime.ConfigStore.Types.{ValidationError, CoreConfig, SaveRequest}

unfoldable pub is_topic_valid : Bytes → Bool
is_topic_valid topic =
    if is_empty topic
    then false
    else if contains b' ' topic
    then false
    else if contains b'\t' topic
    then false
    else true

abbrev pub error : Bytes → Bytes → ValidationError
error field message = record { field = field; message = message }

-- `if (failed) errors.push_back({field, message})`.
abbrev pub check : Bool → Bytes → Bytes → List ValidationError
check failed field message = if failed then error field message ∷ [] else []

-- A test with an `else if`.
abbrev pub check_two : Bytes → Bool → Bytes → Bool → Bytes → List ValidationError
check_two field first first_message second second_message =
    if first then error field first_message ∷ [] else check second field second_message

-- `has_value() && test(*value)`.
abbrev pub given : Option Bytes → (Bytes → Bool) → Bool
given none test = false
given (some value) test = test value

abbrev pub differ : Bool → Bool → Bool
differ true b = not b
differ false b = b

-- The loop over the topics, from index `i`.
pub topic_errors : ℕ → List Bytes → List ValidationError
unfolding is_topic_valid to_string
topic_errors i [] = []
topic_errors i (topic ∷ topics) =
    check (not (is_topic_valid topic)) (codes "mqtt_topics")
      (codes "mqtt_topics[" ++ (to_string (pos i) ++ codes "] is invalid"))
    ++ topic_errors (i + 1) topics

pub topics_errors : List Bytes → List ValidationError
unfolding topic_errors
topics_errors [] =
    error (codes "mqtt_topics") (codes "mqtt_topics must contain at least one topic") ∷ []
topics_errors (topic ∷ topics) = topic_errors 0 (topic ∷ topics)

-- `validate_sound_path`.
pub sound_path_errors : Bytes → Bytes → List ValidationError
unfolding trim
sound_path_errors field_name value =
    check_two field_name (contains b'\n' value || contains b'\r' value)
      (field_name ++ codes " must not contain newline characters")
      (is_empty (trim value) || ltb 256 (length (trim value)))
      (field_name ++ codes " must be 1-256 chars after trimming")

abbrev pub outside : ℤ → ℕ → ℕ → Bool
outside value low high = ltb_ℤ value (pos low) || ltb_ℤ (pos high) value

-- The checks of the network and of the credentials, in order.
pub connection_errors : SaveRequest → List ValidationError
connection_errors r =
    check_two (codes "wifi_ssid") (is_empty c.wifi_ssid) (codes "wifi_ssid is required")
      (ltb 32 (length c.wifi_ssid)) (codes "wifi_ssid must be <= 32 chars")
    ++ (check
          (given r.wifi_password (λ p. not (is_empty p) && (ltb (length p) 8 || ltb 63 (length p))))
          (codes "wifi_password") (codes "wifi_password must be 8-63 chars when provided")
        ++ (check_two (codes "mqtt_host") (is_empty c.mqtt_host) (codes "mqtt_host is required")
              (contains b' ' c.mqtt_host) (codes "mqtt_host must not contain spaces")
            ++ (check (outside c.mqtt_port 1 65535) (codes "mqtt_port")
                  (codes "mqtt_port must be 1-65535")
                ++ (check_two (codes "mqtt_client_id") (is_empty c.mqtt_client_id)
                      (codes "mqtt_client_id is required") (ltb 128 (length c.mqtt_client_id))
                      (codes "mqtt_client_id must be <= 128 chars")
                    ++ (check (ltb 128 (length c.mqtt_username)) (codes "mqtt_username")
                          (codes "mqtt_username must be <= 128 chars")
                        ++ (check
                              (is_empty c.mqtt_username
                                && given r.mqtt_password (λ p. not (is_empty p)))
                              (codes "mqtt_password")
                              (codes "mqtt_password requires mqtt_username to be set")
                            ++ check (given r.mqtt_password (λ p. ltb 256 (length p)))
                                (codes "mqtt_password")
                                (codes "mqtt_password must be <= 256 chars")))))))
  where
    open r use {config as c}

-- The checks of the TLS files.
pub tls_errors : CoreConfig → List ValidationError
tls_errors c =
    check (ltb 256 (length c.mqtt_tls_ca_file)) (codes "mqtt_tls_ca_file")
      (codes "mqtt_tls_ca_file must be <= 256 chars")
    ++ (check (ltb 256 (length c.mqtt_tls_cert_file)) (codes "mqtt_tls_cert_file")
          (codes "mqtt_tls_cert_file must be <= 256 chars")
        ++ (check (ltb 256 (length c.mqtt_tls_key_file)) (codes "mqtt_tls_key_file")
              (codes "mqtt_tls_key_file must be <= 256 chars")
            ++ check
                (differ (not (is_empty c.mqtt_tls_cert_file)) (not (is_empty c.mqtt_tls_key_file)))
                (codes "mqtt_tls_cert_file")
                (codes "mqtt_tls_cert_file and mqtt_tls_key_file must both be set")))

-- The checks of the topics, the sounds and the volumes.
pub sound_errors : CoreConfig → List ValidationError
unfolding topics_errors sound_path_errors is_topic_valid
sound_errors c =
    topics_errors c.mqtt_topics
    ++ (check (not (is_topic_valid c.ring_topic)) (codes "ring_topic")
          (codes "ring_topic is invalid")
        ++ (sound_path_errors (codes "notification_success_sound_path")
              c.notification_success_sound_path
            ++ (sound_path_errors (codes "notification_failure_sound_path")
                  c.notification_failure_sound_path
                ++ (check (outside c.volume_bell 0 100) (codes "volume_bell")
                      (codes "volume_bell must be 0-100")
                    ++ (check (outside c.volume_notifications 0 100) (codes "volume_notifications")
                          (codes "volume_notifications must be 0-100")
                        ++ check (outside c.volume_other 0 100) (codes "volume_other")
                            (codes "volume_other must be 0-100"))))))

unfoldable pub validate_request : SaveRequest → List ValidationError
unfolding connection_errors tls_errors sound_errors
validate_request r = connection_errors r ++ (tls_errors r.config ++ sound_errors r.config)
