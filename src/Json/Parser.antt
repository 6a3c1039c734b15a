-- ===== src/Json/Parser.antt =====
-- The recursive part of `Parser` in chime/src/webd/json.cpp, and the access to its values. `D` is
-- the type of doubles, and `strtod` reads a text that a number's grammar took.
use virtualchime.Base.{
  ℕ, zero, suc, ◌*◌, ◌==◌, true, false, ◌||◌, [], ◌∷◌, Option, none, some, if◌then◌else◌, length,
  is_empty, Bytes, codes, bytes_eq,
}
use virtualchime.Text.{is_digit}
use virtualchime.Json.{
  JsonValue, null, bool, number, string, array, object, Items, nil, item, Fields, end, field,
  Outcome, ok, failed, out_of_fuel, bind, skip_whitespace, parse_string, parse_number,
  parse_literal,
}

-- What the first byte of a value says it is.
pub data Start : Type 0 where
  brace bracket quote t_literal f_literal n_literal digit other : Start

abbrev pub start_of : ℕ → Start
start_of c =
    if c == b'{'
    then brace
    else if c == b'['
    then bracket
    else if c == b'"'
    then quote
    else if c == b't'
    then t_literal
    else if c == b'f'
    then f_literal
    else if c == b'n'
    then n_literal
    else if (c == b'-') || is_digit c
    then digit
    else other

-- What stands behind an item: the closing byte, a comma, or neither, and the text behind it.
pub data Next : Type 0 where
  closed : Bytes → Next
  more : Bytes → Next
  wrong : Bytes → Next

unfoldable pub next_of : ℕ → (unterminated expected : Bytes) → Bytes → Next
next_of close unterminated expected [] = wrong unterminated
next_of close unterminated expected (c ∷ cs) =
    if c == close then closed cs else if c == b',' then more cs else wrong expected

-- The colon behind a key.
unfoldable pub expect_colon : Bytes → Outcome Unit
expect_colon [] = failed (codes "expected ':' in object")
expect_colon (c ∷ cs) = if c == b':' then ok tt cs else failed (codes "expected ':' in object")

-- Whether the text starts with the byte, and then the text behind it.
abbrev pub closes_at_once : ℕ → Bytes → Option Bytes
closes_at_once close [] = none
closes_at_once close (c ∷ cs) = if c == close then some cs else none

module _ {D : Type 0} where
  abbrev pub append_item : Items D → JsonValue D → Items D
  append_item nil v = item v nil
  append_item (item w items) v = item w (append_item items v)

  -- `object[key] = value`.
  unfoldable pub put : Bytes → JsonValue D → Fields D → Fields D
  unfolding bytes_eq
  put key value end = field key value end
  put key value (field k v fields) =
      let later = put key value fields in
      if bytes_eq key k then field k value fields else field k v later

  unfoldable pub find_field : Bytes → Fields D → Option (JsonValue D)
  unfolding bytes_eq
  find_field key end = none
  find_field key (field k v fields) =
      let later = find_field key fields in if bytes_eq key k then some v else later

  -- `GetObjectField`.
  unfoldable pub get_object_field : JsonValue D → Bytes → Option (JsonValue D)
  unfolding find_field
  get_object_field (object fields) key = find_field key fields
  get_object_field null key = none
  get_object_field (bool b) key = none
  get_object_field (number d) key = none
  get_object_field (string s) key = none
  get_object_field (array items) key = none

  abbrev pub string_value : Bytes → Bytes → Outcome (JsonValue D)
  string_value s rest = ok (string s) rest

  abbrev pub number_value : D → Bytes → Outcome (JsonValue D)
  number_value d rest = ok (number d) rest

module _ {D : Type 0} (strtod : Bytes → Option D) where
  -- The cases of `ParseValue`, and the heads of `ParseObject` and `ParseArray` before their loops.
  unfoldable pub parse_started :
      Start → ℕ → Bytes → (members elements : Bytes → Outcome (JsonValue D)) → Outcome (JsonValue D)
  unfolding skip_whitespace parse_string parse_number parse_literal
  parse_started brace c cs members elements = elim (closes_at_once b'}' (skip_whitespace cs)) [
    | some rest ↦ ok (object end) rest
    | none ↦ members (skip_whitespace cs)
  ]
  parse_started bracket c cs members elements = elim (closes_at_once b']' (skip_whitespace cs)) [
    | some rest ↦ ok (array nil) rest
    | none ↦ elements (skip_whitespace cs)
  ]
  parse_started quote c cs members elements = bind (parse_string (c ∷ cs)) string_value
  parse_started t_literal c cs members elements = parse_literal (codes "true") (bool true) (c ∷ cs)
  parse_started f_literal c cs members elements =
      parse_literal (codes "false") (bool false) (c ∷ cs)
  parse_started n_literal c cs members elements = parse_literal (codes "null") null (c ∷ cs)
  parse_started digit c cs members elements = bind (parse_number strtod (c ∷ cs)) number_value
  parse_started other c cs members elements = failed (codes "unexpected token")

  unfoldable mutual
    unfolding parse_started skip_whitespace parse_string parse_number parse_literal next_of
        expect_colon put

    -- `ParseValue`.
    pub parse_value : ℕ → Bytes → Outcome (JsonValue D)
    parse_value zero s = out_of_fuel
    parse_value (suc fuel) [] = failed (codes "unexpected end of json")
    parse_value (suc fuel) (c ∷ cs) =
        parse_started (start_of c) c cs (λ s. fields_loop fuel end s) (λ s. items_loop fuel nil s)

    -- The `while` of `ParseObject`.
    pub fields_loop : ℕ → Fields D → Bytes → Outcome (JsonValue D)
    fields_loop zero fields s = out_of_fuel
    fields_loop (suc fuel) fields [] = failed (codes "unterminated object")
    fields_loop (suc fuel) fields (c ∷ cs) = bind (parse_string (c ∷ cs)) (λ key r1.
        bind (expect_colon (skip_whitespace r1)) (λ colon r2.
          bind (parse_value fuel (skip_whitespace r2)) (λ value r3.
            elim (next_of b'}' (codes "unterminated object") (codes "expected ',' in object")
              (skip_whitespace r3)) [
                | closed rest ↦ ok (object (put key value fields)) rest
                | more rest ↦ fields_loop fuel (put key value fields) (skip_whitespace rest)
                | wrong error ↦ failed error
              ])))

    -- The `while` of `ParseArray`.
    pub items_loop : ℕ → Items D → Bytes → Outcome (JsonValue D)
    items_loop zero items s = out_of_fuel
    items_loop (suc fuel) items [] = failed (codes "unterminated array")
    items_loop (suc fuel) items (c ∷ cs) = bind (parse_value fuel (c ∷ cs)) (λ value r.
        elim (next_of b']' (codes "unterminated array") (codes "expected ',' in array")
          (skip_whitespace r)) [
            | closed rest ↦ ok (array (append_item items value)) rest
            | more rest ↦ items_loop fuel (append_item items value) (skip_whitespace rest)
            | wrong error ↦ failed error
          ])

  -- `Parse` behind the value: nothing but blanks may follow.
  unfoldable pub finish : JsonValue D → Bytes → Outcome (JsonValue D)
  unfolding skip_whitespace
  finish value rest =
      if is_empty (skip_whitespace rest)
      then ok value []
      else failed (codes "unexpected trailing characters")

  -- `ParseJson`.
  unfoldable pub parse_json : Bytes → Outcome (JsonValue D)
  unfolding parse_value
  parse_json input = bind (parse_value (suc (2 * length input)) (skip_whitespace input)) finish
