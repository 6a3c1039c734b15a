-- ===== src/Examples/Web.antt =====
-- A concrete server and concrete requests.
use virtualchime.Base.{true, false, [], ◌≡◌, ◌⊎◌, refl, some, Bytes, codes, ℤ, pos}
use virtualchime.Text.{parse_long}
use virtualchime.Json.{
  JsonValue, null, bool, number, string, array, object, nil, item, end, field, ok, failed,
  json_number,
}
use virtualchime.Json.Parser.{parse_json}
use virtualchime.Json.Render.{render, embed, Reads}
use virtualchime.Json.RoundTrip.{parse_json-render}
use virtualchime.Json.Fuel.Values.{parse_json-ends}
use virtualchime.ConfigStore.Types.{CoreConfigSnapshot}
use virtualchime.ConfigStore.AtomicWrite.{readable, WriteEnv}
use virtualchime.ConfigStore.{snapshot_of}
use virtualchime.ApplyManager.{new_manager}
use virtualchime.Text.{get_lines}
use virtualchime.WebServer.{HttpRequest}
use virtualchime.WebServer.CoreConfig.{
  Core, CoreEnv, handle_get_core_config, handle_post_core_config,
}
use virtualchime.WebServer.CoreConfig.Posting.{PostEnds, handle_post_core_config-PostEnds}

abbrev same_int : ℤ → ℤ
same_int z = z

abbrev document : JsonValue ℤ
document = object (
    field (codes "a") (array (item (number (pos 7)) (item null (item (string (codes "x\"y")) nil))))
      (field (codes "b") (object end) (field (codes "a") (bool true) end)))

document-Reads : Reads same_int parse_long document
unfolding Reads json_number parse_long
document-Reads = ((refl, (tt, (tt, tt))), (tt, (tt, tt)))

parse_json-render_example :
    parse_json parse_long (render document) ≡ ok (embed same_int document) []
parse_json-render_example = parse_json-render parse_long same_int document document-Reads

parse_json-ends_example :
    ((value : JsonValue ℤ) × (parse_json parse_long (codes "[1,{\"a\":") ≡ ok value []))
    ⊎ ((error : Bytes) × (parse_json parse_long (codes "[1,{\"a\":") ≡ failed error))
parse_json-ends_example = parse_json-ends parse_long (codes "[1,{\"a\":")

abbrev write_env : WriteEnv
write_env = record {
  directory_ok = true;
  mkstemp_ok = true;
  fchmod_ok = true;
  writes = [];
  fsync_ok = true;
  close_ok = true;
  rename_ok = true;
}

abbrev pub core_env : CoreEnv ℤ
core_env = record {
  error_text = λ error. codes "error";
  save_env = record {
    wpa_write = write_env;
    chime_write = write_env;
    wpa_opens = true;
    chime_opens = true;
    written_wpa_opens = true;
    written_chime_opens = true;
  };
  now = codes "2026-01-01T00:00:00Z";
  strtod = parse_long;
  exact_int = λ z. some z;
}

abbrev chime_text : Bytes
chime_text =
    codes
      "mqtt_username=u\nmqtt_password=p\nmqtt_host=broker\nmqtt_port=1884\nmqtt_topics=door/ring,hall\nring_topic=door/ring\n"

abbrev wpa_text : Bytes
wpa_text = codes "network={\n    ssid=\"home\"\n    psk=\"secret12\"\n}\n"

abbrev pub core : Core
core = record {
  store = record { chime_conf = readable chime_text; wpa_conf = readable wpa_text };
  manager = new_manager;
}

abbrev snapshot : CoreConfigSnapshot
snapshot = snapshot_of (get_lines chime_text) (get_lines wpa_text)

abbrev pub request : Bytes → Bytes → Bytes → HttpRequest
request method path body = record {
  method = method;
  path = path;
  body = body;
  content_type = [];
  has_content_type = false;
}

abbrev post_back : HttpRequest
post_back =
    request (codes "POST") (codes "/api/v1/config/core")
      (handle_get_core_config core_env.error_text core).body

handle_post_core_config-PostEnds_example :
    PostEnds core_env core (handle_post_core_config core_env core post_back)
handle_post_core_config-PostEnds_example = handle_post_core_config-PostEnds core_env core post_back
