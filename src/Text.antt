-- ===== src/Text.antt =====
-- Text helpers shared by the programs: `trim`, `split_csv` and `parse_bool` of
-- common/include/vc/config/kv_config.h, `ParseInt` of chime/src/webd/config_store.cpp, `ToLower` of chime/src/webd/string_utils.cpp, and the
-- part of the C library that they call (`strtol`, `tolower`, `std::to_string`).
pub mod Trim
pub mod Csv
pub mod Number
pub mod Lines
pub mod Escape
use virtualchime.Base.{
  ℕ, zero, suc, ◌+◌, ◌-◌, ◌*◌, ◌/◌, ◌%◌, Bool, true, false, not, ◌&&◌, ◌||◌, List, [], ◌∷◌, ◌++◌,
  map, Option, none, some, ltb, leb, ◌==◌, if◌then◌else◌, length, is_empty, Bytes, codes, bytes_eq,
  split_at, ℤ, pos, negsuc, neg, leb_ℤ,
}

-- The set " \t\r\n" of `trim`.
abbrev pub is_blank : ℕ → Bool
is_blank c = c == b' ' || c == b'\t' || c == b'\r' || c == b'\n'

pub trim_left : Bytes → Bytes
trim_left [] = []
trim_left (c ∷ cs) = elim (is_blank c) [ true ↦ trim_left cs | false ↦ c ∷ cs ]

-- Cuts behind the last byte that is not blank.
pub trim_right : Bytes → Bytes
trim_right [] = []
trim_right (c ∷ cs) =
    let rest = trim_right cs in if is_blank c && is_empty rest then [] else c ∷ rest

-- `substr` from `find_first_not_of` to `find_last_not_of`.
unfoldable pub trim : Bytes → Bytes
unfolding trim_left trim_right
trim s = trim_right (trim_left s)

-- The tokens are trimmed, and dropped if nothing is left.
abbrev pub push_token : Bytes → List Bytes → List Bytes
push_token token result =
    let cleaned = trim token in if is_empty cleaned then result else cleaned ∷ result

-- The loop of `split_csv`; each round takes at least one byte off `remaining`.
pub csv_loop : ℕ → Bytes → List Bytes
csv_loop zero remaining = []
csv_loop (suc fuel) [] = []
csv_loop (suc fuel) (c ∷ cs) = elim (split_at b',' (c ∷ cs)) [
  | none ↦ push_token (c ∷ cs) []
  | some (token, rest) ↦ push_token token (csv_loop fuel rest)
]

unfoldable pub split_csv : Bytes → List Bytes
unfolding csv_loop trim split_at
split_csv csv = csv_loop (length csv) csv

-- The lines that a `std::getline` loop reads; what follows the last newline is a line if not empty.
pub lines_loop : ℕ → Bytes → List Bytes
lines_loop zero s = []
lines_loop (suc fuel) [] = []
lines_loop (suc fuel) (c ∷ cs) = elim (split_at b'\n' (c ∷ cs)) [
  | none ↦ (c ∷ cs) ∷ []
  | some (line, rest) ↦ line ∷ lines_loop fuel rest
]

unfoldable pub get_lines : Bytes → List Bytes
unfolding lines_loop split_at
get_lines content = lines_loop (length content) content

-- Each line with a newline behind it.
abbrev pub unlines : List Bytes → Bytes
unlines [] = []
unlines (line ∷ lines) = line ++ (b'\n' ∷ unlines lines)

-- `vc::util::Join`, the separator in front of all but the first value.
abbrev pub join_tail : Bytes → List Bytes → Bytes
join_tail separator [] = []
join_tail separator (x ∷ xs) = separator ++ (x ++ join_tail separator xs)

abbrev pub join : Bytes → List Bytes → Bytes
join separator [] = []
join separator (x ∷ xs) = x ++ join_tail separator xs

-- `JoinCsv` of the configuration store.
abbrev pub join_csv : List Bytes → Bytes
join_csv items = join (b',' ∷ []) items

-- `std::tolower` in the C locale.
abbrev pub tolower : ℕ → ℕ
tolower c = if leb b'A' c && leb c b'Z' then c + 32 else c

unfoldable pub to_lower : Bytes → Bytes
to_lower = map tolower

-- `std::isspace` in the C locale.
abbrev pub is_space : ℕ → Bool
is_space c = c == b' ' || (leb 9 c && leb c 13)

abbrev pub is_digit : ℕ → Bool
is_digit c = leb b'0' c && leb c b'9'

-- The text that `s.c_str()` shows: all before the first zero byte.
unfoldable pub c_str : Bytes → Bytes
c_str [] = []
c_str (c ∷ cs) = elim (c == 0) [ true ↦ [] | false ↦ c ∷ c_str cs ]

-- The digits of `strtol`, and where they end.
unfoldable pub scan_digits : ℕ → Bytes → ℕ × Bytes
scan_digits value [] = (value, [])
scan_digits value (c ∷ cs) = elim (is_digit c) [
  | true ↦ scan_digits (value * 10 + (c - b'0')) cs
  | false ↦ (value, c ∷ cs)
]

-- `long` has 32 bits on the target, and `strtol` saturates.
abbrev pub long_max : ℕ
long_max = 2147483647

abbrev saturate : Bool → ℕ → ℤ
saturate negative n =
    if negative
    then neg (if leb n (long_max + 1) then n else long_max + 1)
    else pos (if leb n long_max then n else long_max)

unfoldable pub strtol_digits : Bool → Bytes → Option (ℤ × Bytes)
unfolding scan_digits
strtol_digits negative [] = none
strtol_digits negative (c ∷ cs) =
    if is_digit c
    then (let (value, end) = scan_digits 0 (c ∷ cs) in some (saturate negative value, end))
    else none

unfoldable pub strtol_sign : Bytes → Option (ℤ × Bytes)
unfolding strtol_digits
strtol_sign [] = none
strtol_sign (c ∷ cs) =
    if c == b'-'
    then strtol_digits true cs
    else if c == b'+'
    then strtol_digits false cs
    else strtol_digits false (c ∷ cs)

unfoldable pub skip_space : Bytes → Bytes
skip_space [] = []
skip_space (c ∷ cs) = elim (is_space c) [ true ↦ skip_space cs | false ↦ c ∷ cs ]

-- `strtol(s, &end, 10)`: the value, and the text at `end`. With no digits `end` is `s` itself.
unfoldable pub strtol : Bytes → ℤ × Bytes
unfolding strtol_sign skip_space
strtol s = elim (strtol_sign (skip_space s)) [ none ↦ (pos 0, s) | some r ↦ r ]

-- `strtol(value.c_str(), &end, 10)` with the test `*end == '\0'`.
unfoldable pub parse_long : Bytes → Option ℤ
unfolding strtol c_str
parse_long value =
    let (parsed, end) = strtol (c_str value) in if is_empty end then some parsed else none

abbrev pub in_range : ℕ → ℕ → Option ℤ → Option ℤ
in_range lo hi none = none
in_range lo hi (some n) = if leb_ℤ (pos lo) n && leb_ℤ n (pos hi) then some n else none

-- `ParseInt` of chime/src/webd/config_store.cpp on a trimmed text that is not empty; none where it
-- returns false.
unfoldable pub parse_int : ℕ → ℕ → Bytes → Option ℤ
unfolding parse_long
parse_int min_val max_val value = in_range min_val max_val (parse_long value)

-- The two `if` of `parse_bool` on the lowered text; none where it returns false.
unfoldable pub bool_of_word : Bytes → Option Bool
unfolding bytes_eq
bool_of_word lower =
    if bytes_eq lower (codes "true")
      || bytes_eq lower (codes "yes")
      || bytes_eq lower (codes "1")
      || bytes_eq lower (codes "on")
    then some true
    else if bytes_eq lower (codes "false")
        || bytes_eq lower (codes "no")
        || bytes_eq lower (codes "0")
        || bytes_eq lower (codes "off")
    then some false
    else none

unfoldable pub parse_bool : Bytes → Option Bool
unfolding bool_of_word to_lower
parse_bool value = bool_of_word (to_lower value)

-- The decimal digits of `n`, in front of `tail`.
unfoldable pub decimal : ℕ → ℕ → Bytes → Bytes
decimal zero n tail = tail
decimal (suc fuel) n tail =
    let digits = (b'0' + n % 10) ∷ tail in
    let longer = decimal fuel (n / 10) digits in if ltb n 10 then digits else longer

abbrev pub nat_to_string : ℕ → Bytes
nat_to_string n = decimal (suc n) n []

-- `std::to_string`.
unfoldable pub to_string : ℤ → Bytes
unfolding decimal
to_string (pos n) = nat_to_string n
to_string (negsuc n) = b'-' ∷ nat_to_string (suc n)
