-- ===== src/WebServer/Request.antt =====
-- Reading a request and writing a response over TLS: `ReadHttpRequest` and `WriteAllSsl` of
-- chime/src/webd/web_server.cpp. What each `SSL_read` gives is in a list; the read behind its end
-- fails.
pub mod Bounds
use virtualchime.Base.{
  ℕ, zero, suc, ◌*◌, Bool, true, false, not, ◌&&◌, ◌||◌, List, [], ◌∷◌, ◌++◌, Option, none, some,
  if◌then◌else◌, ltb, leb, length, is_empty, take, drop, Bytes, codes, bytes_eq, starts_with,
  split_at, ℤ, pos, negsuc, is_some, ◌==◌,
}
use virtualchime.Text.{trim, to_lower, get_lines, parse_long, is_space}
use virtualchime.WifiScan.{drop_cr}
use virtualchime.WebServer.{HttpRequest}
use virtualchime.WebServer.Texts.{assign, find_value}

abbrev pub max_request_bytes : ℕ
max_request_bytes = 65536

abbrev pub max_body_bytes : ℕ
max_body_bytes = 2 * 1024 * 1024

-- `pos = s.find(needle)`; the parts `s.substr(0, pos)` and `s.substr(pos + needle.size())`.
unfoldable pub cut_at : Bytes → Bytes → Option (Bytes × Bytes)
unfolding starts_with
cut_at needle [] = if is_empty needle then some ([], []) else none
cut_at needle (c ∷ cs) =
    let later = cut_at needle cs in
    if starts_with needle (c ∷ cs)
    then some ([], drop (length needle) (c ∷ cs))
    else elim later [ none ↦ none | some (a, b) ↦ some (c ∷ a, b) ]

abbrev headers_mark : Bytes
headers_mark = b'\r' ∷ b'\n' ∷ b'\r' ∷ b'\n' ∷ []

pub record Headers : Type 0 where
  pub header_blob : Bytes
  pub behind : Bytes
  pub unread : List Bytes

-- A result, or the error text.
pub data Result (A : Type 0) : Type 0 where
  done : A → Result A
  error : Bytes → Result A

-- The loop up to the end of the headers.
unfoldable pub read_headers : List Bytes → Bytes → Result Headers
unfolding cut_at
read_headers [] received =
    if leb max_request_bytes (length received)
    then error (codes "request too large")
    else error (codes "failed to read request")
read_headers (chunk ∷ chunks) received =
    let later = read_headers chunks (received ++ chunk) in
    if leb max_request_bytes (length received)
    then error (codes "request too large")
    else elim (cut_at headers_mark (received ++ chunk)) [
      | none ↦ later
      | some (blob, behind) ↦ done record { header_blob = blob; behind = behind; unread = chunks }
    ]

-- The word at the front, and the text behind it.
pub take_word : Bytes → Bytes × Bytes
take_word [] = ([], [])
take_word (c ∷ cs) = elim (is_space c) [
  | true ↦ ([], c ∷ cs)
  | false ↦ (let (word, rest) = take_word cs in (c ∷ word, rest))
]

pub skip_blanks : Bytes → Bytes
skip_blanks [] = []
skip_blanks (c ∷ cs) = elim (is_space c) [ true ↦ skip_blanks cs | false ↦ c ∷ cs ]

-- `stream >> word`.
pub next_word : Bytes → Bytes × Bytes
unfolding take_word skip_blanks
next_word s = take_word (skip_blanks s)

abbrev header_values : List (Bytes × Bytes) → List Bytes → List (Bytes × Bytes)
unfolding assign trim to_lower split_at drop_cr
header_values headers [] = headers
header_values headers (line ∷ lines) =
    header_values
      (elim (split_at b':' (drop_cr line)) [
        | none ↦ headers
        | some (key, value) ↦ assign (to_lower (trim key)) (trim value) headers
      ])
      lines

-- The length that the headers give for the body.
abbrev content_length_of : Option Bytes → Option ℕ
unfolding parse_long
content_length_of none = some 0
content_length_of (some value) = elim (parse_long value) [
  | none ↦ none
  | some (pos n) ↦ some n
  | some (negsuc n) ↦ none
]

-- The loop over the rest of the body.
unfoldable pub read_body : ℕ → List Bytes → Bytes → Result Bytes
read_body content_length [] body =
    if ltb (length body) content_length
    then error (codes "failed to read request body")
    else done body
read_body content_length (chunk ∷ chunks) body =
    let more = body ++ chunk in
    let later = read_body content_length chunks more in
    if not (ltb (length body) content_length)
    then done body
    else if ltb max_body_bytes (length more)
    then error (codes "request body too large")
    else later

abbrev without_query : Bytes → Bytes
unfolding split_at
without_query path = elim (split_at b'?' path) [ none ↦ path | some (front, query) ↦ front ]

abbrev content_type_value : Option Bytes → Bytes
content_type_value none = []
content_type_value (some value) = value

-- The request from its parts; `body.resize` cuts what is too long.
abbrev request_of :
    (method path : Bytes) → List (Bytes × Bytes) → ℕ → Result Bytes → Result HttpRequest
unfolding find_value without_query
request_of method path headers content_length (error e) = error e
request_of method path headers content_length (done body) =
    let content_type = find_value (codes "content-type") headers in
    done record {
      method = method;
      path = without_query path;
      body = take content_length body;
      content_type = content_type_value content_type;
      has_content_type = is_some content_type;
    }

unfoldable pub with_length :
    (method path : Bytes) → List (Bytes × Bytes) → Headers → Option ℕ → Result HttpRequest
unfolding request_of read_body
with_length method path headers h none = error (codes "invalid Content-Length")
with_length method path headers h (some content_length) =
    if ltb max_body_bytes content_length
    then error (codes "request body too large")
    else request_of method path headers content_length (read_body content_length h.unread h.behind)

unfoldable pub with_headers : Headers → List Bytes → Result HttpRequest
unfolding with_length next_word header_values content_length_of find_value drop_cr
with_headers h [] = error (codes "missing request line")
with_headers h (request_line ∷ lines) =
    let (method, behind_method) = next_word (drop_cr request_line) in
    let (path, behind_path) = next_word behind_method in
    let (version, rest) = next_word behind_path in
    let headers = header_values [] lines in
    if is_empty method || (is_empty path || is_empty version)
    then error (codes "invalid request line")
    else with_length method path headers h
        (content_length_of (find_value (codes "content-length") headers))

unfoldable pub with_read : Result Headers → Result HttpRequest
unfolding with_headers get_lines
with_read (error e) = error e
with_read (done h) = with_headers h (get_lines h.header_blob)

-- `ReadHttpRequest`.
unfoldable pub read_http_request : List Bytes → Result HttpRequest
unfolding with_read read_headers
read_http_request chunks = with_read (read_headers chunks [])

-- `WriteAllSsl`: what has been sent, and the value returned. Each number is what a call of
-- `SSL_write` says that it wrote of the up to 16384 bytes it was given, zero where it fails.
unfoldable pub write_all_ssl : List ℕ → Bytes → Bytes × Bool
write_all_ssl writes [] = ([], true)
write_all_ssl [] (c ∷ cs) = ([], false)
write_all_ssl (written ∷ writes) (c ∷ cs) =
    let given = take 16384 (c ∷ cs) in
    let (sent, result) = write_all_ssl writes (drop (length (take written given)) (c ∷ cs)) in
    if written == 0 then ([], false) else (take written given ++ sent, result)
