-- ===== src/WebServer/CoreConfig/PostBack.antt =====
-- `HandlePostCoreConfig` of chime/src/webd/web_server.cpp on the body that `HandleGetCoreConfig`
-- wrote.
use virtualchime.Base.{List, [], ◌∷◌, ◌≡◌, refl, ap, ◌∙◌, map, some, none, Bytes, codes, ℤ, ℕ, suc}
use virtualchime.Json.{ok}
use virtualchime.Json.Parser.{parse_json, put, get_object_field}
use virtualchime.Json.Quoted.{cleaned}
use virtualchime.Json.Render.{render, embed, embed_items, Reads}
use virtualchime.Json.RoundTrip.{parse_json-render}
use virtualchime.ConfigStore.Types.{
  CoreConfig, CoreConfigSnapshot, SaveRequest, SaveResult, success,
}
use virtualchime.ConfigStore.{load_core_config, save_core_config}
use virtualchime.ApplyManager.{ApplyStatus, current_status}
use virtualchime.WebServer.{HttpRequest}
use virtualchime.WebServer.Fields.{
  Payload, read_payload, parse_errors, save_request_of, strings_read, read_required_string,
  read_required_int, read_required_bool, read_required_string_array, read_optional_string,
}
use virtualchime.WebServer.CoreConfig.{
  Core, CoreEnv, get_loaded, handle_get_core_config, after_save, save_payload, post_payload,
  post_value, post_parsed, handle_post_core_config,
}
use virtualchime.WebServer.CoreConfig.Document.{
  strings_of, core_config_document, core_config_text-render,
}

-- The configuration that a client has read, without the password, which is never shown.
unfoldable pub shown_config : CoreConfig → CoreConfig
unfolding cleaned
shown_config config = record {
  wifi_ssid = cleaned config.wifi_ssid;
  mqtt_host = cleaned config.mqtt_host;
  mqtt_port = config.mqtt_port;
  mqtt_client_id = cleaned config.mqtt_client_id;
  mqtt_username = cleaned config.mqtt_username;
  mqtt_password = [];
  mqtt_tls_enabled = config.mqtt_tls_enabled;
  mqtt_tls_validate_certificate = config.mqtt_tls_validate_certificate;
  mqtt_tls_ca_file = cleaned config.mqtt_tls_ca_file;
  mqtt_tls_cert_file = cleaned config.mqtt_tls_cert_file;
  mqtt_tls_key_file = cleaned config.mqtt_tls_key_file;
  mqtt_topics = map cleaned config.mqtt_topics;
  ring_topic = cleaned config.ring_topic;
  notification_success_sound_path = cleaned config.notification_success_sound_path;
  notification_failure_sound_path = cleaned config.notification_failure_sound_path;
  volume_bell = config.volume_bell;
  volume_notifications = config.volume_notifications;
  volume_other = config.volume_other;
}

-- The request that keeps both passwords.
abbrev pub shown_request : CoreConfig → SaveRequest
shown_request config = record {
  config = shown_config config;
  wifi_password = none;
  mqtt_password = none;
}

-- The C library reads the numbers of the document as doubles, which have the values of the ints.
pub record ReadsNumbers {D : Type 0} (env : CoreEnv D) (of_int : ℤ → D)
    (snapshot : CoreConfigSnapshot) (apply : ApplyStatus) : Type 0 where
  pub reads : Reads of_int env.strtod (core_config_document snapshot apply)
  pub port : env.exact_int (of_int snapshot.config.mqtt_port) ≡ some snapshot.config.mqtt_port
  pub bell : env.exact_int (of_int snapshot.config.volume_bell) ≡ some snapshot.config.volume_bell
  pub notifications :
      env.exact_int (of_int snapshot.config.volume_notifications)
      ≡ some snapshot.config.volume_notifications
  pub other :
      env.exact_int (of_int snapshot.config.volume_other) ≡ some snapshot.config.volume_other

strings_read-embed :
    {D : Type 0} (of_int : ℤ → D) (key : Bytes) (i : ℕ) (strings : List Bytes)
    → strings_read key i (embed_items of_int (strings_of strings)) ≡ (map cleaned strings, [])
unfolding strings_read embed
strings_read-embed of_int key i [] = refl
strings_read-embed of_int key i (s ∷ strings) =
    ap (λ (x : List Bytes × List _). (cleaned s ∷ x.0, x.1))
      (strings_read-embed of_int key (suc i) strings)

module _ {D : Type 0} (env : CoreEnv D) (of_int : ℤ → D) (snapshot : CoreConfigSnapshot)
    (apply : ApplyStatus) where
  abbrev shown_payload : Payload
  shown_payload =
      let config = shown_config snapshot.config in
      record {
        wifi_ssid = (some config.wifi_ssid, []);
        mqtt_host = (some config.mqtt_host, []);
        mqtt_port = (some config.mqtt_port, []);
        mqtt_client_id = (some config.mqtt_client_id, []);
        mqtt_username = (some config.mqtt_username, []);
        mqtt_tls_enabled = (some config.mqtt_tls_enabled, []);
        mqtt_tls_validate_certificate = (some config.mqtt_tls_validate_certificate, []);
        mqtt_tls_ca_file = (some config.mqtt_tls_ca_file, []);
        mqtt_tls_cert_file = (some config.mqtt_tls_cert_file, []);
        mqtt_tls_key_file = (some config.mqtt_tls_key_file, []);
        mqtt_topics = (some config.mqtt_topics, []);
        ring_topic = (some config.ring_topic, []);
        notification_success_sound_path = (some config.notification_success_sound_path, []);
        notification_failure_sound_path = (some config.notification_failure_sound_path, []);
        volume_bell = (some config.volume_bell, []);
        volume_notifications = (some config.volume_notifications, []);
        volume_other = (some config.volume_other, []);
        wifi_password = (none, []);
        mqtt_password = (none, []);
      }

  read_payload-shown :
      ReadsNumbers env of_int snapshot apply
      → read_payload env.exact_int (embed of_int (core_config_document snapshot apply))
        ≡ shown_payload
  unfolding read_payload read_required_string read_required_int read_required_bool
      read_required_string_array read_optional_string get_object_field embed put cleaned
      core_config_document shown_config
  read_payload-shown r =
      rw
        (
          r.port,
          r.bell,
          r.notifications,
          r.other,
          strings_read-embed of_int (codes "mqtt_topics") 0 snapshot.config.mqtt_topics,
        )
        refl

  post_value-shown :
      (core : Core)
      → ReadsNumbers env of_int snapshot apply
      → post_value env core (embed of_int (core_config_document snapshot apply))
        ≡ after_save env core
            (save_core_config env.save_env (shown_request snapshot.config) core.store)
  unfolding post_value post_payload embed core_config_document save_payload save_request_of
  post_value-shown core r =
      ap (λ (p : Payload). post_payload env core p (parse_errors p)) (read_payload-shown r)

body-get :
    {D : Type 0} (env : CoreEnv D) (core : Core) (snapshot : CoreConfigSnapshot)
    → load_core_config core.store ≡ success snapshot
    → (handle_get_core_config env.error_text core).body
      ≡ render (core_config_document snapshot (current_status core.manager))
unfolding handle_get_core_config
body-get env core snapshot h =
    ap (λ (x : SaveResult). (get_loaded env.error_text (current_status core.manager) x).body) h
    ∙ (unfold get_loaded in core_config_text-render snapshot (current_status core.manager))

-- A client that posts back the body which GET gave it, byte for byte, has a save started of every
-- field that GET had loaded, but for the control bytes that JSON text has no escape for, and of no
-- password. The C library has to read the numbers of the body exactly.
pub handle_post_core_config-get :
    {D : Type 0} (env : CoreEnv D) (of_int : ℤ → D) (core : Core) (snapshot : CoreConfigSnapshot)
    (request : HttpRequest)
    → load_core_config core.store ≡ success snapshot
    → ReadsNumbers env of_int snapshot (current_status core.manager)
    → request.body ≡ (handle_get_core_config env.error_text core).body
    → handle_post_core_config env core request
      ≡ after_save env core
          (save_core_config env.save_env (shown_request snapshot.config) core.store)
unfolding handle_post_core_config
handle_post_core_config-get env of_int core snapshot request h r same =
    let apply = current_status core.manager in
    let doc = core_config_document snapshot apply in
    let parsed : parse_json env.strtod request.body ≡ ok (embed of_int doc) [] =
      ap (λ x. parse_json env.strtod x) (same ∙ body-get env core snapshot h)
      ∙ parse_json-render env.strtod of_int doc r.reads in
    ap (λ x. post_parsed env core x) parsed
    ∙ (unfold post_parsed in post_value-shown env of_int snapshot apply core r)
