-- ===== src/Examples/Pages.antt =====
-- Concrete requests to the handlers of chime/src/webd/web_server.cpp for sounds and files.
use virtualchime.Base.{
  if◌then◌else◌, ◌≤◌, true, false, List, [], ◌∷◌, ◌++◌, ◌≡◌, refl, none, some, Bytes, codes,
  bytes_eq, length, drop, ℤ,
}
use virtualchime.Text.{parse_long}
use virtualchime.WebServer.{HttpRequest}
use virtualchime.WebServer.Names.{is_safe_relative_path, is_safe_sound_name, parts}
use virtualchime.WebServer.Names.Safe.{is_safe_sound_name-parts}
use virtualchime.WebServer.Sounds.{
  Place, directory, regular, EnsureEnv, FileEnv, UploadEnv, sounds_prefix, handle_upload_ring_sound,
}
use virtualchime.WebServer.Sounds.Upload.{UploadEnds, handle_upload_ring_sound-UploadEnds}
use virtualchime.WebServer.Selection.{Sounds, CopyEnv, SelectEnv, handle_select_ring_sound}
use virtualchime.WebServer.Selection.Selects.{SelectEnds, handle_select_ring_sound-SelectEnds}
use virtualchime.WebServer.Ui.{UiFile, UiDir, try_serve_external_ui}
use virtualchime.WebServer.Ui.Inside.{try_serve_external_ui-same}
use virtualchime.WebServer.Request.{done, read_http_request, write_all_ssl, max_body_bytes}
use virtualchime.WebServer.Request.Bounds.{read_http_request-bounded, write_all_ssl_complete}
use virtualchime.WebServer.Route.{Server, ServerEnv, is_get, route}
use virtualchime.WebServer.Route.Table.{ReadOnly, route-ReadOnly}
use virtualchime.WifiScan.{scan_failed}
use virtualchime.Examples.Web.{core_env, core, request}

abbrev ensure_env : EnsureEnv
ensure_env = record { exists_error = none; is_directory_error = none; create_error = none }

abbrev file_env : FileEnv
file_env = record {
  open_ok = true;
  write_ok = true;
  partial = [];
  rename_ok = true;
  remove_ok = true;
}

abbrev upload_env : UploadEnv
upload_env = record { ensure = ensure_env; file = file_env }

abbrev sound_dir : Bytes
sound_dir = codes "/var/lib/sounds"

abbrev wav_body : Bytes
wav_body = codes "RIFF....WAVEfmt "

abbrev place : Place
place = directory ((codes "ring-a.wav", regular wav_body) ∷ [])

abbrev upload : HttpRequest
upload = request (codes "PUT") (codes "/api/v1/ring/sounds/ring-b.wav") wav_body

handle_upload_ring_sound-UploadEnds_example :
    UploadEnds
      (drop (length sounds_prefix) upload.path)
      upload.body
      place
      (handle_upload_ring_sound sound_dir upload_env upload place)
handle_upload_ring_sound-UploadEnds_example =
    handle_upload_ring_sound-UploadEnds sound_dir upload_env upload place

abbrev copy_env : CopyEnv
copy_env = record { copy_ok = true; partial = none; rename_ok = true; remove_ok = true }

abbrev select_env : SelectEnv
select_env = record {
  ensure = ensure_env;
  parent_error = none;
  copy = copy_env;
  selected = file_env;
}

abbrev sounds : Sounds
sounds = record { place = place; active = some (codes "old"); active_temp = none }

abbrev select : HttpRequest
select =
    request (codes "POST") (codes "/api/v1/ring/sounds/select") (codes "{\"name\":\"ring-a.wav\"}")

handle_select_ring_sound-SelectEnds_example :
    SelectEnds sounds (handle_select_ring_sound parse_long sound_dir select_env select sounds)
handle_select_ring_sound-SelectEnds_example =
    handle_select_ring_sound-SelectEnds sound_dir select_env sounds parse_long select

ring_a-safe : is_safe_sound_name (codes "ring-a.wav") ≡ true
unfolding is_safe_sound_name
ring_a-safe = refl

is_safe_sound_name-parts_example :
    (parts (sound_dir ++ b'/' ∷ codes "ring-a.wav") ≡ parts sound_dir ++ codes "ring-a.wav" ∷ [])
    × (bytes_eq (codes "ring-a.wav") (codes "..") ≡ false)
is_safe_sound_name-parts_example =
    is_safe_sound_name-parts sound_dir (codes "ring-a.wav") ring_a-safe

abbrev ui : UiDir
ui = record { dir = codes "/ui"; is_directory = true; file = λ path. UiFile.content path }

-- The same files below the directory, and another one beside it.
abbrev other_ui : UiDir
other_ui = record ui {
  file = λ path.
      if is_safe_relative_path path then UiFile.content path else UiFile.content (codes "key");
}

same_below : (path : Bytes) → is_safe_relative_path path ≡ true → ui.file path ≡ other_ui.file path
same_below path safe = rw safe refl

different_beside : (ui.file (codes "../key") ≡ other_ui.file (codes "../key")) → ⊥
unfolding is_safe_relative_path parts bytes_eq
different_beside h = absurd (cc h)

abbrev outside_request : HttpRequest
outside_request = request (codes "GET") (codes "/../key") []

try_serve_external_ui-same_example :
    try_serve_external_ui ui outside_request ≡ try_serve_external_ui other_ui outside_request
try_serve_external_ui-same_example =
    try_serve_external_ui-same ui other_ui same_below outside_request refl refl

abbrev reads : List Bytes
reads =
    (codes "PUT /a?b HTTP/1.1"
      ++ b'\r' ∷ b'\n' ∷ codes "Content-Length: 4"
      ++ b'\r' ∷ b'\n' ∷ b'\r' ∷ [])
    ∷ (b'\n' ∷ codes "ab")
    ∷ codes "cdef"
    ∷ []

abbrev put_request : HttpRequest
put_request = request (codes "PUT") (codes "/a") (codes "abcd")

reads-done : read_http_request reads ≡ done put_request
unfolding read_http_request
reads-done = refl

read_http_request-bounded_example : length (put_request.body) ≤ max_body_bytes
read_http_request-bounded_example = read_http_request-bounded reads put_request reads-done

all-sent : (write_all_ssl (2 ∷ 9 ∷ []) (codes "abcdef")).1 ≡ true
unfolding write_all_ssl
all-sent = refl

write_all_ssl_complete_example : (write_all_ssl (2 ∷ 9 ∷ []) (codes "abcdef")).0 ≡ codes "abcdef"
write_all_ssl_complete_example = write_all_ssl_complete (2 ∷ 9 ∷ []) (codes "abcdef") all-sent

abbrev server_env : ServerEnv ℤ
server_env = record {
  core = core_env;
  scan = scan_failed (codes "no device");
  release_file = none;
  app_version_file = some (codes "1.2.3\n");
  observed_topics_file = some (codes "door\nhall\n");
  ring_sounds_dir = sound_dir;
  list = record { ensure = ensure_env; seed = copy_env; open_ok = true };
  upload = upload_env;
  select = select_env;
  ui = ui;
  main_page = codes "<html></html>";
}

abbrev server : Server
server = record { core = core; sounds = sounds }

abbrev list_request : HttpRequest
list_request = request (codes "GET") (codes "/api/v1/ring/sounds") []

list-get : is_get list_request ≡ true
unfolding is_get bytes_eq
list-get = refl

route-ReadOnly_example : ReadOnly server (route server_env server list_request)
route-ReadOnly_example = route-ReadOnly server_env server list_request list-get
