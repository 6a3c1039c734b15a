-- ===== src/WebServer/CoreConfig/Document.antt =====
-- The document that `HandleGetCoreConfig` of chime/src/webd/web_server.cpp writes.
use virtualchime.Base.{List, [], ◌∷◌, ◌++◌, ◌≡◌, refl, ap, map, Bytes, codes, ℤ, pos}
use virtualchime.Json.{
  JsonValue, bool, number, string, array, object, Items, nil, item, Fields, end, field, json_string,
  json_number,
}
use virtualchime.Json.Render.{render, render_items}
use virtualchime.ConfigStore.Types.{CoreConfigSnapshot}
use virtualchime.ApplyManager.{ApplyStatus}
use virtualchime.WebServer.{more_items}
use virtualchime.WebServer.Texts.{
  core_config_text, serialize_topics, serialize_apply_status, state_text,
}

abbrev pub fields_of : List (Bytes × JsonValue ℤ) → Fields ℤ
fields_of [] = end
fields_of ((name, v) ∷ members) = field name v (fields_of members)

abbrev pub strings_of : List Bytes → Items ℤ
strings_of [] = nil
strings_of (s ∷ strings) = item (string s) (strings_of strings)

abbrev pub status_document : ApplyStatus → JsonValue ℤ
status_document status = object (
    fields_of (
      (codes "job_id", number (pos status.job_id))
      ∷ (codes "state", string (state_text status.state))
      ∷ (codes "started_at_utc", string status.started_at_utc)
      ∷ (codes "finished_at_utc", string status.finished_at_utc)
      ∷ (codes "error", string status.error)
      ∷ []))

unfoldable pub core_config_document : CoreConfigSnapshot → ApplyStatus → JsonValue ℤ
core_config_document snapshot apply =
    let config = snapshot.config in
    object (
      fields_of (
        (codes "wifi_ssid", string config.wifi_ssid)
        ∷ (codes "wifi_password_set", bool snapshot.wifi_password_set)
        ∷ (codes "mqtt_host", string config.mqtt_host)
        ∷ (codes "mqtt_port", number config.mqtt_port)
        ∷ (codes "mqtt_client_id", string config.mqtt_client_id)
        ∷ (codes "mqtt_username", string config.mqtt_username)
        ∷ (codes "mqtt_password_set", bool snapshot.mqtt_password_set)
        ∷ (codes "mqtt_tls_enabled", bool config.mqtt_tls_enabled)
        ∷ (codes "mqtt_tls_validate_certificate", bool config.mqtt_tls_validate_certificate)
        ∷ (codes "mqtt_tls_ca_file", string config.mqtt_tls_ca_file)
        ∷ (codes "mqtt_tls_cert_file", string config.mqtt_tls_cert_file)
        ∷ (codes "mqtt_tls_key_file", string config.mqtt_tls_key_file)
        ∷ (codes "mqtt_topics", array (strings_of config.mqtt_topics))
        ∷ (codes "ring_topic", string config.ring_topic)
        ∷ (codes "notification_success_sound_path", string config.notification_success_sound_path)
        ∷ (codes "notification_failure_sound_path", string config.notification_failure_sound_path)
        ∷ (codes "volume_bell", number config.volume_bell)
        ∷ (codes "volume_notifications", number config.volume_notifications)
        ∷ (codes "volume_other", number config.volume_other)
        ∷ (codes "apply", status_document apply)
        ∷ []))

more_items-strings :
    (strings : List Bytes)
    → more_items (map json_string strings) ≡ render_items (strings_of strings)
unfolding render
more_items-strings [] = refl
more_items-strings (s ∷ strings) = ap (λ x. 44 ∷ (json_string s ++ x)) (more_items-strings strings)

serialize_topics-render :
    (topics : List Bytes) → serialize_topics topics ≡ render (array (strings_of topics))
unfolding serialize_topics render
serialize_topics-render [] = refl
serialize_topics-render (s ∷ topics) =
    ap (λ x. 91 ∷ (json_string s ++ (x ++ 93 ∷ []))) (more_items-strings topics)

pub core_config_text-render :
    (snapshot : CoreConfigSnapshot) (apply : ApplyStatus)
    → core_config_text snapshot apply ≡ render (core_config_document snapshot apply)
unfolding core_config_text render core_config_document serialize_apply_status json_number
    json_string
core_config_text-render snapshot apply =
    rw (serialize_topics-render snapshot.config.mqtt_topics) refl
