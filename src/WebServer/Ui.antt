-- ===== src/WebServer/Ui.antt =====
-- `TryServeExternalUi` of chime/src/webd/web_server.cpp. The files below `ui_dist_dir_` are a
-- function of the path behind it.
pub mod Inside
use virtualchime.Base.{
  ℕ, Bool, true, false, not, ◌&&◌, ◌||◌, [], ◌∷◌, Option, none, some, if◌then◌else◌, is_empty,
  Bytes, codes, bytes_eq, starts_with, ◌==◌,
}
use virtualchime.WebServer.{HttpRequest, HttpResponse, respond, error_body, not_found}
use virtualchime.WebServer.Names.{
  relative_path, is_safe_relative_path, extension, content_type_for_path, cache_control_for_path,
}

-- What is at a path: no regular file, a file that cannot be read, or a file.
pub data UiFile : Type 0 where
  no_file : UiFile
  unreadable : UiFile
  content : Bytes → UiFile

pub record UiDir : Type 0 where
  pub dir : Bytes
  pub is_directory : Bool
  pub file : Bytes → UiFile

-- The lambda `response_from_file`.
pub response_from_file : UiFile → (file_path request_path : Bytes) → Option HttpResponse
unfolding content_type_for_path cache_control_for_path
response_from_file no_file file_path request_path = none
response_from_file unreadable file_path request_path =
    some (respond 500 (error_body (codes "ui_read_failed")))
response_from_file (content body) file_path request_path = some record {
  status = 200;
  content_type = content_type_for_path file_path;
  cache_control = cache_control_for_path request_path file_path;
  body = body;
}

abbrev is_absolute : Bytes → Bool
is_absolute [] = false
is_absolute (c ∷ cs) = c == b'/'

abbrev index : Bytes
index = codes "index.html"

abbrev or_else : Option HttpResponse → HttpResponse → HttpResponse
or_else none response = response
or_else (some r) response = r

-- Behind the test on the path: a path without an extension that is no asset falls back to the
-- index.
unfoldable pub serve_relative : UiDir → Bytes → Bytes → HttpResponse
unfolding response_from_file extension starts_with
serve_relative ui path relative = or_else (response_from_file (ui.file relative) relative path) (
    if not (starts_with (codes "/assets/") path) && is_empty (extension relative)
    then or_else (response_from_file (ui.file index) index (codes "/")) not_found
    else not_found)

unfoldable pub try_serve_external_ui : UiDir → HttpRequest → Option HttpResponse
unfolding bytes_eq starts_with serve_relative relative_path is_safe_relative_path response_from_file
try_serve_external_ui ui request =
    let relative = relative_path request.path in
    if is_empty ui.dir || not (bytes_eq request.method (codes "GET"))
    then none
    else if not (is_absolute request.path) || starts_with (codes "/api/") request.path
    then none
    else if not ui.is_directory
    then none
    else if bytes_eq request.path (codes "/")
    then response_from_file (ui.file index) index (codes "/")
    else if is_empty relative || not (is_safe_relative_path relative)
    then some not_found
    else some (serve_relative ui request.path relative)
