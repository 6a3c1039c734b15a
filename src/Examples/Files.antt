-- ===== src/Examples/Files.antt =====
-- Concrete files for chime/src/webd/config_store.cpp.
use virtualchime.Base.{
  true, false, List, [], ◌∷◌, ◌≡◌, ◌≢◌, ◌⊎◌, ◌↔◌, refl, none, some, Bytes, codes, pos,
}
use virtualchime.Text.{trim, get_lines}
use virtualchime.ConfigStore.Types.{CoreConfig, SaveRequest, StoreError}
use virtualchime.ConfigStore.Validate.{validate_request}
use virtualchime.ConfigStore.Validate.Accepts.{ConnectionOk, TlsOk, SoundOk, validate_request_iff}
use virtualchime.ConfigStore.AtomicWrite.{
  written, interrupted, WriteEnv, missing, readable, atomic_write_file,
}
use virtualchime.ConfigStore.AtomicWrite.Atomic.{atomic_write_file_atomic}
use virtualchime.ConfigStore.ChimeFile.{
  extract_config_value, replacements_of, update_lines, join_lines, find,
}
use virtualchime.ConfigStore.ChimeFile.Written.{are_lines, saved_values}
use virtualchime.ConfigStore.Wpa.{parse_wpa_data, with_header, edit_wpa, edited, rejected}
use virtualchime.ConfigStore.Wpa.Lines.{Holds}
use virtualchime.ConfigStore.Wpa.RoundTrip.{wanted, edit_wpa_refused_iff}
use virtualchime.ConfigStore.Wpa.Written.{edit_wpa-written}
use virtualchime.ConfigStore.{Store, SaveEnv, save_core_config}
use virtualchime.ConfigStore.Saving.{Ends, save_core_config-Ends}

abbrev config : CoreConfig
config = record {
  wifi_ssid = codes "home";
  mqtt_host = codes "broker";
  mqtt_port = pos 1883;
  mqtt_client_id = codes "chime";
  mqtt_username = codes "u";
  mqtt_password = [];
  mqtt_tls_enabled = false;
  mqtt_tls_validate_certificate = true;
  mqtt_tls_ca_file = [];
  mqtt_tls_cert_file = [];
  mqtt_tls_key_file = [];
  mqtt_topics = codes "a" ∷ [];
  ring_topic = codes "ring";
  notification_success_sound_path = codes "ok.wav";
  notification_failure_sound_path = codes "bad.wav";
  volume_bell = pos 80;
  volume_notifications = pos 70;
  volume_other = pos 70;
}

abbrev request : SaveRequest
request = record { config = config; wifi_password = some (codes "password1"); mqtt_password = none }

-- A write that is cut short and interrupted, and then goes on.
abbrev slow : WriteEnv
slow = record {
  directory_ok = true;
  mkstemp_ok = true;
  fchmod_ok = true;
  writes = written 3 ∷ interrupted ∷ [];
  fsync_ok = true;
  close_ok = true;
  rename_ok = true;
}

abbrev store : Store
store = record { chime_conf = readable (codes "mqtt_host=old\n"); wpa_conf = missing }

abbrev save_env : SaveEnv
save_env = record {
  wpa_write = slow;
  chime_write = slow;
  wpa_opens = true;
  chime_opens = true;
  written_wpa_opens = true;
  written_chime_opens = true;
}

save_core_config-Ends_example :
    Ends save_env request store (save_core_config save_env request store)
save_core_config-Ends_example = save_core_config-Ends request store save_env

validate_request_iff_example :
    (validate_request request ≡ [])
    ↔ (ConnectionOk request × (TlsOk request.config × SoundOk request.config))
validate_request_iff_example = validate_request_iff request

atomic_write_file_atomic_example :
    ((atomic_write_file slow (codes "new") missing).0 ≡ missing)
      × ((atomic_write_file slow (codes "new") missing).1 ≢ none)
    ⊎ ((atomic_write_file slow (codes "new") missing).0 ≡ readable (codes "new"))
      × ((atomic_write_file slow (codes "new") missing).1 ≡ none)
atomic_write_file_atomic_example = atomic_write_file_atomic slow (codes "new") missing

clean : are_lines (replacements_of config []) ≡ true
unfolding are_lines replacements_of
clean = refl

saved_host : find (codes "mqtt_host") (replacements_of config []) ≡ some (codes "broker")
unfolding find replacements_of
saved_host = refl

saved_values_example :
    extract_config_value
      (get_lines (
        join_lines
          (update_lines (replacements_of config []) (get_lines (codes "mqtt_host=old\n")))))
      (codes "mqtt_host")
    ≡ trim (codes "broker")
saved_values_example =
    saved_values config [] (codes "mqtt_host=old\n") (codes "mqtt_host") (codes "broker") clean
      saved_host

abbrev old_wpa : List Bytes
old_wpa = codes "network={" ∷ codes "ssid=\"old\"" ∷ codes "}" ∷ []

abbrev new_wpa : List Bytes
new_wpa =
    codes "network={" ∷ codes "    ssid=\"home\"" ∷ codes "    psk=\"password1\"" ∷ codes "}" ∷ []

abbrev old_wpa_text : Bytes
old_wpa_text = codes "network={\nssid=\"old\"\n}\n"

old_edited : edit_wpa request (get_lines old_wpa_text) ≡ edited new_wpa
unfolding edit_wpa parse_wpa_data get_lines
old_edited = refl

edit_wpa-written_example :
    Holds request.config.wifi_ssid
      (wanted request.wifi_password (parse_wpa_data (with_header (get_lines old_wpa_text))).psk)
      (parse_wpa_data (get_lines (join_lines new_wpa)))
edit_wpa-written_example = edit_wpa-written request old_wpa_text new_wpa refl refl old_edited

edit_wpa_refused_iff_example :
    ((error : StoreError) × (edit_wpa request old_wpa ≡ rejected error))
    ↔ (wanted request.wifi_password (parse_wpa_data (with_header old_wpa)).psk ≡ [])
edit_wpa_refused_iff_example = edit_wpa_refused_iff request old_wpa
