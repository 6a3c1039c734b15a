-- ===== src/WebServer/Route.antt =====
-- `Route`, `ReservedNotImplemented` and `HandleConnection` of chime/src/webd/web_server.cpp, over
-- the state of all handlers.
pub mod Table
use virtualchime.Base.{
  ℕ, Bool, true, false, not, ◌&&◌, ◌||◌, List, [], ◌∷◌, Option, none, some, if◌then◌else◌, Bytes,
  codes, bytes_eq, starts_with,
}
use virtualchime.Json.{json_string}
use virtualchime.WifiScan.{ScanResult, networks_found, scan_failed}
use virtualchime.WebServer.{
  HttpRequest, HttpResponse, respond, message_body, object_text, text_field, method_not_allowed,
  not_found, raw_response,
}
use virtualchime.WebServer.Texts.{
  networks_text, serialize_topics, read_observed_topics, system_version_text,
}
use virtualchime.WebServer.CoreConfig.{
  Core, CoreEnv, Handled, handle_get_core_config, handle_post_core_config,
}
use virtualchime.WebServer.Sounds.{Place, UploadEnv, handle_upload_ring_sound}
use virtualchime.WebServer.Selection.{
  Sounds, ListEnv, SelectEnv, handle_get_ring_sounds, handle_select_ring_sound,
}
use virtualchime.WebServer.Ui.{UiDir, try_serve_external_ui}
use virtualchime.WebServer.Request.{Result, done, error, read_http_request, write_all_ssl}

-- The state that requests change.
pub record Server : Type 0 where
  pub core : Core
  pub sounds : Sounds

-- What the handlers find outside, and how their calls of the operating system end.
pub record ServerEnv (D : Type 0) : Type 0 where
  pub core : CoreEnv D
  pub scan : ScanResult
  pub release_file : Option Bytes
  pub app_version_file : Option Bytes
  pub observed_topics_file : Option Bytes
  pub ring_sounds_dir : Bytes
  pub list : ListEnv
  pub upload : UploadEnv
  pub select : SelectEnv
  pub ui : UiDir
  pub main_page : Bytes

-- The state afterwards, the job whose thread is started, and the response.
abbrev pub Routed : Type 0
Routed = Server × Option ℕ × HttpResponse

-- `HandleWifiScan`.
unfoldable pub handle_wifi_scan : ScanResult → HttpResponse
unfolding networks_text
handle_wifi_scan (networks_found networks) = respond 200 (networks_text networks)
handle_wifi_scan (scan_failed message) = respond 503 (message_body (codes "scan_failed") message)

-- `ReservedNotImplemented`.
unfoldable pub reserved_not_implemented : Bytes → HttpResponse
unfolding json_string
reserved_not_implemented path = respond 501 (
    object_text (
      text_field (codes "error") (codes "not_implemented")
      ∷ text_field (codes "message") (codes "reserved endpoint")
      ∷ text_field (codes "path") path
      ∷ []))

-- The paths of `Route`, in the order of its tests.
pub data Endpoint : Type 0 where
  core_config wifi_scan system_version mqtt_topics ring_sounds : Endpoint
  select_sound upload_sound reserved page : Endpoint

unfoldable pub is_reserved : Bytes → Bool
unfolding bytes_eq starts_with
is_reserved path =
    bytes_eq path (codes "/api/v1/system")
    || (bytes_eq path (codes "/api/v1/device")
        || (bytes_eq path (codes "/api/v1/diagnostics")
            || (starts_with (codes "/api/v1/system/") path
                || (starts_with (codes "/api/v1/device/") path
                    || starts_with (codes "/api/v1/diagnostics/") path))))

unfoldable pub endpoint_of : Bytes → Endpoint
unfolding bytes_eq starts_with is_reserved
endpoint_of path =
    if bytes_eq path (codes "/api/v1/config/core")
    then core_config
    else if bytes_eq path (codes "/api/v1/wifi/scan")
    then wifi_scan
    else if bytes_eq path (codes "/api/v1/system/version")
    then system_version
    else if bytes_eq path (codes "/api/v1/mqtt/topics")
    then mqtt_topics
    else if bytes_eq path (codes "/api/v1/ring/sounds")
    then ring_sounds
    else if starts_with (codes "/api/v1/ring/sounds/") path
    then (if bytes_eq path (codes "/api/v1/ring/sounds/select") then select_sound else upload_sound)
    else if is_reserved path
    then reserved
    else page

unfoldable pub is_get : HttpRequest → Bool
unfolding bytes_eq
is_get request = bytes_eq request.method (codes "GET")

abbrev from_core : Server → Handled → Routed
from_core server (core, job, response) = (record server { core = core }, job, response)

abbrev from_sounds : Server → Sounds × HttpResponse → Routed
from_sounds server (sounds, response) = (record server { sounds = sounds }, none, response)

abbrev from_place : Server → Place × HttpResponse → Routed
from_place server (place, response) =
    (record server { sounds = record server.sounds { place = place } }, none, response)

-- The page of the user interface, or the page that is built in.
unfoldable pub serve_page : {D : Type 0} → ServerEnv D → HttpRequest → HttpResponse
unfolding try_serve_external_ui is_get bytes_eq
serve_page env request = elim (try_serve_external_ui env.ui request) [
  | some response ↦ response
  | none ↦
      if is_get request && bytes_eq request.path (codes "/")
      then record (respond 200 env.main_page) { content_type = codes "text/html; charset=utf-8" }
      else not_found
]

module _ {D : Type 0} (env : ServerEnv D) (server : Server) (request : HttpRequest) where
  abbrev pub answer : HttpResponse → Routed
  answer response = (server, none, response)

  -- The handlers, by endpoint.
  unfoldable pub dispatch : Endpoint → Routed
  unfolding handle_get_core_config handle_post_core_config handle_wifi_scan system_version_text
      serialize_topics read_observed_topics handle_get_ring_sounds handle_upload_ring_sound
      handle_select_ring_sound reserved_not_implemented serve_page is_get bytes_eq json_string
  dispatch core_config =
      if is_get request
      then answer (handle_get_core_config env.core.error_text server.core)
      else if bytes_eq request.method (codes "POST")
      then from_core server (handle_post_core_config env.core server.core request)
      else answer method_not_allowed
  dispatch wifi_scan =
      if is_get request then answer (handle_wifi_scan env.scan) else answer method_not_allowed
  dispatch system_version =
      if is_get request
      then answer (respond 200 (system_version_text env.release_file env.app_version_file))
      else answer method_not_allowed
  dispatch mqtt_topics =
      if is_get request
      then answer (
          respond 200 (
            object_text (
              (codes "topics", serialize_topics (read_observed_topics env.observed_topics_file))
              ∷ [])))
      else answer method_not_allowed
  dispatch ring_sounds =
      if is_get request
      then from_sounds server (handle_get_ring_sounds env.ring_sounds_dir env.list server.sounds)
      else answer method_not_allowed
  dispatch select_sound =
      if bytes_eq request.method (codes "POST")
      then from_sounds server (
          handle_select_ring_sound env.core.strtod env.ring_sounds_dir env.select request
            server.sounds)
      else answer method_not_allowed
  dispatch upload_sound =
      if bytes_eq request.method (codes "PUT")
      then from_place server
          (handle_upload_ring_sound env.ring_sounds_dir env.upload request server.sounds.place)
      else answer method_not_allowed
  dispatch reserved = answer (reserved_not_implemented request.path)
  dispatch page = answer (serve_page env request)

  -- `Route`.
  unfoldable pub route : Routed
  unfolding dispatch endpoint_of
  route = dispatch (endpoint_of request.path)

abbrev bad_request : {D : Type 0} → ServerEnv D → Server → Result HttpRequest → Routed
unfolding route
bad_request env server (done request) = route env server request
bad_request env server (error message) =
    (server, none, respond 400 (message_body (codes "bad_request") message))

abbrev sent_response : List ℕ → Routed → Server × Option ℕ × Bytes
unfolding raw_response write_all_ssl
sent_response writes (server, job, response) =
    (server, job, (write_all_ssl writes (raw_response response)).0)

-- `HandleConnection`, behind the handshake: the state, the job that is started, and what is sent.
unfoldable pub handle_connection :
    {D : Type 0} → ServerEnv D → List Bytes → List ℕ → Server → Server × Option ℕ × Bytes
unfolding bad_request sent_response read_http_request
handle_connection env reads writes server =
    sent_response writes (bad_request env server (read_http_request reads))
