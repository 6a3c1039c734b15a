-- ===== src/WebServer.antt =====
-- The HTTP side of the web server, `WebServer` of chime/src/webd/web_server.cpp: requests,
-- responses and the texts that every handler writes.
pub mod Texts
pub mod Names
pub mod Fields
pub mod CoreConfig
pub mod Sounds
pub mod Selection
pub mod Ui
pub mod Request
pub mod Route
use virtualchime.Base.{
  ℕ, Bool, true, false, List, [], ◌∷◌, ◌++◌, ◌==◌, if◌then◌else◌, length, Bytes, codes, pos,
}
use virtualchime.Text.{to_string, nat_to_string}
use virtualchime.Json.{json_string}

pub record HttpRequest : Type 0 where
  pub method : Bytes
  pub path : Bytes
  pub body : Bytes
  pub content_type : Bytes
  pub has_content_type : Bool

pub record HttpResponse : Type 0 where
  pub status : ℕ
  pub content_type : Bytes
  pub cache_control : Bytes
  pub body : Bytes

-- A response with the default headers.
abbrev pub respond : ℕ → Bytes → HttpResponse
respond status body = record {
  status = status;
  content_type = codes "application/json; charset=utf-8";
  cache_control = codes "no-store";
  body = body;
}

-- `StatusText`.
abbrev pub status_text : ℕ → Bytes
status_text code =
    if code == 200
    then codes "OK"
    else if code == 400
    then codes "Bad Request"
    else if code == 404
    then codes "Not Found"
    else if code == 405
    then codes "Method Not Allowed"
    else if code == 500
    then codes "Internal Server Error"
    else if code == 501
    then codes "Not Implemented"
    else if code == 503
    then codes "Service Unavailable"
    else codes "Error"

abbrev crlf : Bytes
crlf = b'\r' ∷ b'\n' ∷ []

-- The text `raw` that `HandleConnection` writes.
unfoldable pub raw_response : HttpResponse → Bytes
unfolding to_string
raw_response response =
    codes "HTTP/1.1 "
    ++ (to_string (pos response.status)
        ++ (codes " "
            ++ (status_text response.status
                ++ (crlf
                    ++ (codes "Content-Type: "
                        ++ (response.content_type
                            ++ (crlf
                                ++ (codes "Content-Length: "
                                    ++ (to_string (pos (length response.body))
                                        ++ (crlf
                                            ++ (codes "Cache-Control: "
                                                ++ (response.cache_control
                                                    ++ (crlf
                                                        ++ (codes "Connection: close"
                                                            ++ (crlf
                                                            ++ (crlf
                                                            ++ response.body))))))))))))))))

-- The text of an object's members, each a name in quotes, a colon and the text of its value.
abbrev pub member_text : Bytes × Bytes → Bytes
member_text (name, text) = b'"' ∷ (name ++ b'"' ∷ b':' ∷ text)

abbrev pub more_members : List (Bytes × Bytes) → Bytes
more_members [] = []
more_members (m ∷ ms) = b',' ∷ (member_text m ++ more_members ms)

abbrev pub object_text : List (Bytes × Bytes) → Bytes
object_text [] = codes "{}"
object_text (m ∷ ms) = b'{' ∷ (member_text m ++ (more_members ms ++ b'}' ∷ []))

abbrev pub more_items : List Bytes → Bytes
more_items [] = []
more_items (t ∷ ts) = b',' ∷ (t ++ more_items ts)

-- The text of an array, from those of its items.
abbrev pub array_text : List Bytes → Bytes
array_text [] = codes "[]"
array_text (t ∷ ts) = b'[' ∷ (t ++ (more_items ts ++ b']' ∷ []))

abbrev pub text_field : Bytes → Bytes → Bytes × Bytes
text_field name value = (name, json_string value)

abbrev pub error_body : Bytes → Bytes
error_body error = object_text (text_field (codes "error") error ∷ [])

abbrev pub message_body : Bytes → Bytes → Bytes
message_body error message =
    object_text (text_field (codes "error") error ∷ text_field (codes "message") message ∷ [])

abbrev pub method_not_allowed : HttpResponse
method_not_allowed = respond 405 (error_body (codes "method_not_allowed"))

abbrev pub not_found : HttpResponse
not_found = respond 404 (error_body (codes "not_found"))
