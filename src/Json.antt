-- ===== src/Json.antt =====
-- chime/src/webd/json.cpp: the values, the lexical part of `Parser`, and the writers. The text from
-- `position_` on is the argument of each parser; what it leaves is in its outcome.
pub mod Parser
pub mod Quoted
pub mod Integers
pub mod Fuel
pub mod Render
pub mod Pieces
pub mod Steps
pub mod RoundTrip
use virtualchime.Base.{
  ℕ, zero, suc, ◌+◌, ◌-◌, ◌*◌, ◌≤◌, ◌==◌, Bool, true, false, not, ◌&&◌, ◌||◌, List, [], ◌∷◌, ◌++◌,
  Option, none, some, if◌then◌else◌, leb, ltb, length, is_empty, take, drop, Bytes, codes, bytes_eq,
  strip_prefix, ℤ, pos, negsuc, neg,
}
use virtualchime.Text.{c_str, is_space, skip_space, is_digit, to_string}

-- `JsonValue`, over the type `D` of doubles. An array and an object have their items in lists of
-- their own, an object in the order of first assignment.
mutual
  pub data JsonValue (D : Type 0) : Type 0 where
    null : JsonValue D
    bool : Bool → JsonValue D
    number : D → JsonValue D
    string : Bytes → JsonValue D
    array : Items D → JsonValue D
    object : Fields D → JsonValue D

  pub data Items (D : Type 0) : Type 0 where
    nil : Items D
    item : JsonValue D → Items D → Items D

  pub data Fields (D : Type 0) : Type 0 where
    end : Fields D
    field : Bytes → JsonValue D → Fields D → Fields D

-- A value and the text behind it, or the error text.
pub data Outcome (A : Type 0) : Type 0 where
  ok : A → Bytes → Outcome A
  failed : Bytes → Outcome A
  out_of_fuel : Outcome A

module _ {A B : Type 0} where
  abbrev pub bind : Outcome A → (A → Bytes → Outcome B) → Outcome B
  bind (ok a rest) k = k a rest
  bind (failed error) k = failed error
  bind out_of_fuel k = out_of_fuel

-- `SkipWhitespace`.
abbrev pub is_json_space : ℕ → Bool
is_json_space c = (c == b' ') || ((c == b'\n') || ((c == b'\r') || (c == b'\t')))

unfoldable pub skip_whitespace : Bytes → Bytes
skip_whitespace [] = []
skip_whitespace (c ∷ cs) = elim (is_json_space c) [ true ↦ skip_whitespace cs | false ↦ c ∷ cs ]

-- The value of a hexadecimal digit.
abbrev pub hex_digit : ℕ → Option ℕ
hex_digit c =
    if is_digit c
    then some (c - b'0')
    else if leb b'a' c && leb c b'f'
    then some (c - b'a' + 10)
    else if leb b'A' c && leb c b'F'
    then some (c - b'A' + 10)
    else none

-- The digits of `strtol` with base 16, and where they end.
pub scan_hex : ℕ → Bytes → ℕ × Bytes
scan_hex value [] = (value, [])
scan_hex value (c ∷ cs) = elim (hex_digit c) [
  | some d ↦ scan_hex (value * 16 + d) cs
  | none ↦ (value, c ∷ cs)
]

-- The first digit must be there.
pub hex_digits : Bytes → Option (ℕ × Bytes)
unfolding scan_hex
hex_digits [] = none
hex_digits (c ∷ cs) = elim (hex_digit c) [ none ↦ none | some d ↦ some (scan_hex d cs) ]

-- A prefix 0x is skipped if a digit follows it.
pub hex_prefix : Bytes → Option (ℕ × Bytes)
unfolding hex_digits
hex_prefix [] = none
hex_prefix (c ∷ []) = hex_digits (c ∷ [])
hex_prefix (c ∷ x ∷ cs) = elim ((c == b'0') && ((x == b'x') || (x == b'X'))) [
  | true ↦ elim (hex_digits cs) [ some r ↦ some r | none ↦ some (0, x ∷ cs) ]
  | false ↦ hex_digits (c ∷ x ∷ cs)
]

abbrev signed : Bool → Option (ℕ × Bytes) → Option (ℤ × Bytes)
signed negative none = none
signed true (some (n, left)) = some (neg n, left)
signed false (some (n, left)) = some (pos n, left)

pub hex_sign : Bytes → Option (ℤ × Bytes)
unfolding hex_prefix
hex_sign [] = none
hex_sign (c ∷ cs) =
    if c == b'-'
    then signed true (hex_prefix cs)
    else if c == b'+'
    then signed false (hex_prefix cs)
    else signed false (hex_prefix (c ∷ cs))

-- `strtol(hex.c_str(), &end, 16)` with the tests `*end == '\0'` and `code >= 0`, on four bytes.
pub parse_code : Bytes → Option ℕ
unfolding hex_sign c_str skip_space
parse_code hex = elim (hex_sign (skip_space (c_str hex))) [
  | none ↦ if is_empty (c_str hex) then some 0 else none
  | some (pos n, left) ↦ if is_empty left then some n else none
  | some (negsuc n, left) ↦ none
]

-- The case 'u', behind the letter.
pub unicode_escape : Bytes → Outcome ℕ
unfolding parse_code
unicode_escape s =
    if ltb (length s) 4
    then failed (codes "invalid unicode escape")
    else elim (parse_code (take 4 s)) [
      | none ↦ failed (codes "invalid unicode escape")
      | some code ↦ ok (if ltb code 128 then code else b'?') (drop 4 s)
    ]

-- The byte that an escape stands for, by its letter; none for 'u' and for other letters.
abbrev pub simple_escape : ℕ → Option ℕ
simple_escape c =
    if (c == b'"') || ((c == b'\\') || (c == b'/'))
    then some c
    else if c == b'b'
    then some 8
    else if c == b'f'
    then some 12
    else if c == b'n'
    then some 10
    else if c == b'r'
    then some 13
    else if c == b't'
    then some 9
    else none

-- The escape behind a backslash.
unfoldable pub read_escape : Bytes → Outcome ℕ
unfolding unicode_escape
read_escape [] = failed (codes "invalid escape")
read_escape (esc ∷ rest) = elim (simple_escape esc) [
  | some c ↦ ok c rest
  | none ↦ if esc == b'u' then unicode_escape rest else failed (codes "unsupported escape sequence")
]

-- The loop of `ParseString`, behind the first quote.
unfoldable pub string_loop : ℕ → Bytes → Bytes → Outcome Bytes
unfolding read_escape
string_loop fuel out [] = failed (codes "unterminated string")
string_loop zero out (c ∷ cs) = out_of_fuel
string_loop (suc fuel) out (c ∷ cs) = elim (c == b'"') [
  | true ↦ ok out cs
  | false ↦ elim (c == b'\\') [
    | true ↦ bind (read_escape cs) (λ x rest. string_loop fuel (out ++ x ∷ []) rest)
    | false ↦ elim (ltb c 32) [
      | true ↦ failed (codes "control character in string")
      | false ↦ string_loop fuel (out ++ c ∷ []) cs
    ]
  ]
]

-- `ParseString`.
unfoldable pub parse_string : Bytes → Outcome Bytes
unfolding string_loop
parse_string [] = failed (codes "expected string")
parse_string (c ∷ cs) =
    if c == b'"' then string_loop (length cs) [] cs else failed (codes "expected string")

-- The run of digits at the front, and the rest.
unfoldable pub take_digits : Bytes → Bytes × Bytes
take_digits [] = ([], [])
take_digits (c ∷ cs) = elim (is_digit c) [
  | true ↦ (let (digits, rest) = take_digits cs in (c ∷ digits, rest))
  | false ↦ ([], c ∷ cs)
]

-- At least one digit.
abbrev pub some_digits : Bytes × Bytes → Option (Bytes × Bytes)
some_digits ([], rest) = none
some_digits (d ∷ digits, rest) = some (d ∷ digits, rest)

abbrev pub after : Bytes → Option (Bytes × Bytes) → Option (Bytes × Bytes)
after front none = none
after front (some (text, rest)) = some (front ++ text, rest)

-- Each part of a number: the text it takes and the rest, none for "invalid number".
unfoldable pub number_sign : Bytes → Bytes × Bytes
number_sign [] = ([], [])
number_sign (c ∷ cs) = if c == b'-' then (c ∷ [], cs) else ([], c ∷ cs)

unfoldable pub number_whole : Bytes → Option (Bytes × Bytes)
unfolding take_digits
number_whole [] = none
number_whole (c ∷ cs) = if c == b'0' then some (c ∷ [], cs) else some_digits (take_digits (c ∷ cs))

unfoldable pub number_fraction : Bytes → Option (Bytes × Bytes)
unfolding take_digits
number_fraction [] = some ([], [])
number_fraction (c ∷ cs) =
    if c == b'.' then after (c ∷ []) (some_digits (take_digits cs)) else some ([], c ∷ cs)

unfoldable pub exponent_sign : Bytes → Bytes × Bytes
exponent_sign [] = ([], [])
exponent_sign (c ∷ cs) = if (c == b'+') || (c == b'-') then (c ∷ [], cs) else ([], c ∷ cs)

unfoldable pub number_exponent : Bytes → Option (Bytes × Bytes)
unfolding take_digits exponent_sign
number_exponent [] = some ([], [])
number_exponent (c ∷ cs) =
    if (c == b'e') || (c == b'E')
    then (let (sign, digits) = exponent_sign cs in
        after (c ∷ sign) (some_digits (take_digits digits)))
    else some ([], c ∷ cs)

-- A part behind another one.
abbrev pub then_part :
    Option (Bytes × Bytes) → (Bytes → Option (Bytes × Bytes)) → Option (Bytes × Bytes)
then_part none part = none
then_part (some (text, rest)) part = after text (part rest)

-- The text from `start` to `position_` that `ParseNumber` takes, and the rest.
unfoldable pub number_text : Bytes → Option (Bytes × Bytes)
unfolding number_sign number_whole number_fraction number_exponent
number_text s =
    then_part (then_part (then_part (some (number_sign s)) number_whole) number_fraction)
      number_exponent

-- `ParseNumber`. `strtod` gives the double of a text that it takes whole, if it is finite.
unfoldable pub parse_number : {D : Type 0} → (Bytes → Option D) → Bytes → Outcome D
unfolding number_text
parse_number strtod s = elim (number_text s) [
  | none ↦ failed (codes "invalid number")
  | some (text, rest) ↦ elim (strtod text) [
    | none ↦ failed (codes "invalid number")
    | some d ↦ ok d rest
  ]
]

-- `ParseLiteral`.
unfoldable pub parse_literal : {A : Type 0} → Bytes → A → Bytes → Outcome A
unfolding strip_prefix
parse_literal literal value s =
    if ltb (length s) (length literal)
    then failed (codes "unexpected end of json")
    else elim (strip_prefix literal s) [
      | none ↦ failed (codes "invalid literal")
      | some rest ↦ ok value rest
    ]

-- `JsonEscape`.
unfoldable pub json_escape : Bytes → Bytes
json_escape [] = []
json_escape (c ∷ cs) =
    let rest = json_escape cs in
    if c == b'"'
    then b'\\' ∷ b'"' ∷ rest
    else if c == b'\\'
    then b'\\' ∷ b'\\' ∷ rest
    else if c == 8
    then b'\\' ∷ b'b' ∷ rest
    else if c == 12
    then b'\\' ∷ b'f' ∷ rest
    else if c == 10
    then b'\\' ∷ b'n' ∷ rest
    else if c == 13
    then b'\\' ∷ b'r' ∷ rest
    else if c == 9
    then b'\\' ∷ b't' ∷ rest
    else if ltb c 32
    then b'?' ∷ rest
    else c ∷ rest

-- `JsonString`.
unfoldable pub json_string : Bytes → Bytes
unfolding json_escape
json_string input = b'"' ∷ (json_escape input ++ b'"' ∷ [])

-- `JsonBool`.
unfoldable pub json_bool : Bool → Bytes
json_bool value = if value then codes "true" else codes "false"

-- `JsonNumber`.
unfoldable pub json_number : ℤ → Bytes
unfolding to_string
json_number value = to_string value
