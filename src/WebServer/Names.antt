-- ===== src/WebServer/Names.antt =====
-- The tests on names and paths of chime/src/webd/web_server.cpp, and the parts of
-- `std::filesystem::path` that they use: a path is its text, cut at slashes.
pub mod Safe
use virtualchime.Base.{
  ℕ, Bool, true, false, not, ◌&&◌, ◌||◌, List, [], ◌∷◌, ◌++◌, ◌-◌, ◌==◌, if◌then◌else◌, Option,
  none, some, leb, ltb, length, is_empty, drop, all, any, Bytes, codes, bytes_eq, contains,
  contains_bytes, starts_with, split_at,
}
use virtualchime.Text.{trim, to_lower, is_digit}

-- `MimeTypeOnly`.
unfoldable pub mime_type_only : Bytes → Bytes
unfolding trim to_lower split_at
mime_type_only content_type = elim (split_at b';' content_type) [
  | none ↦ to_lower (trim content_type)
  | some (front, rest) ↦ to_lower (trim front)
]

-- `std::isalnum` in the C locale.
abbrev pub is_alnum : ℕ → Bool
is_alnum c = is_digit c || ((leb b'a' c && leb c b'z') || (leb b'A' c && leb c b'Z'))

abbrev pub is_sound_byte : ℕ → Bool
is_sound_byte c = is_alnum c || ((c == b'.') || ((c == b'-') || (c == b'_')))

-- The last `n` bytes of a text that has as many.
abbrev pub last_bytes : ℕ → Bytes → Bytes
last_bytes n s = drop (length s - n) s

-- `IsSafeSoundName`. A text that is long enough has the last ".wav" in the last place exactly
-- when its last four bytes are that.
unfoldable pub is_safe_sound_name : Bytes → Bool
unfolding to_lower contains_bytes starts_with bytes_eq
is_safe_sound_name file_name =
    let lowered = to_lower file_name in
    not (is_empty file_name || ltb 128 (length file_name))
    && (not (contains b'/' file_name || contains b'\\' file_name)
        && (not (contains_bytes (codes "..") file_name)
            && ((starts_with (codes "ring-") lowered
                  && bytes_eq (last_bytes 4 lowered) (codes ".wav"))
                && all is_sound_byte file_name)))

-- The parts of a path between its slashes.
pub parts_loop : Bytes → Bytes → List Bytes
parts_loop part [] = part ∷ []
parts_loop part (c ∷ cs) =
    if c == b'/' then part ∷ parts_loop [] cs else parts_loop (part ++ c ∷ []) cs

unfoldable pub parts : Bytes → List Bytes
unfolding parts_loop
parts path = parts_loop [] path

-- `IsSafeRelativePath`.
unfoldable pub is_safe_relative_path : Bytes → Bool
unfolding parts bytes_eq
is_safe_relative_path path = not (any (λ part. bytes_eq part (codes "..")) (parts path))

-- `path(p).relative_path()`.
unfoldable pub relative_path : Bytes → Bytes
relative_path [] = []
relative_path (c ∷ cs) = let rest = relative_path cs in if c == b'/' then rest else c ∷ cs

abbrev last_part : List Bytes → Bytes
last_part [] = []
last_part (p ∷ []) = p
last_part (p ∷ q ∷ ps) = last_part (q ∷ ps)

-- The text from the last dot on, empty if there is none.
pub last_dot : Bytes → Bytes
last_dot [] = []
last_dot (c ∷ cs) =
    let rest = last_dot cs in if not (is_empty rest) then rest else if c == b'.' then c ∷ cs else []

abbrev extension_of : Bytes → Bytes
unfolding last_dot bytes_eq
extension_of [] = []
extension_of (c ∷ cs) = if bytes_eq (c ∷ cs) (codes "..") then [] else last_dot cs

-- `path(p).extension()`: a dot in the first place of the file name starts none.
unfoldable pub extension : Bytes → Bytes
unfolding extension_of parts
extension path = extension_of (last_part (parts path))

-- `ContentTypeForPath`.
unfoldable pub content_type_for_path : Bytes → Bytes
unfolding extension to_lower bytes_eq
content_type_for_path path =
    let ext = to_lower (extension path) in
    if bytes_eq ext (codes ".html")
    then codes "text/html; charset=utf-8"
    else if bytes_eq ext (codes ".css")
    then codes "text/css; charset=utf-8"
    else if bytes_eq ext (codes ".js")
    then codes "application/javascript; charset=utf-8"
    else if bytes_eq ext (codes ".json")
    then codes "application/json; charset=utf-8"
    else if bytes_eq ext (codes ".svg")
    then codes "image/svg+xml"
    else if bytes_eq ext (codes ".ico")
    then codes "image/x-icon"
    else if bytes_eq ext (codes ".png")
    then codes "image/png"
    else if bytes_eq ext (codes ".jpg") || bytes_eq ext (codes ".jpeg")
    then codes "image/jpeg"
    else if bytes_eq ext (codes ".webp")
    then codes "image/webp"
    else if bytes_eq ext (codes ".woff2")
    then codes "font/woff2"
    else if bytes_eq ext (codes ".woff")
    then codes "font/woff"
    else codes "application/octet-stream"

-- `CacheControlForPath`.
unfoldable pub cache_control_for_path : Bytes → Bytes → Bytes
unfolding extension to_lower bytes_eq starts_with
cache_control_for_path request_path path =
    if bytes_eq (to_lower (extension path)) (codes ".html")
    then codes "no-cache"
    else if starts_with (codes "/assets/") request_path
    then codes "public, max-age=31536000, immutable"
    else codes "public, max-age=3600"
