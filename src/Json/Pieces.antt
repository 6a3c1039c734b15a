-- ===== src/Json/Pieces.antt =====
-- The texts, and the lists of items, that the round trip of chime/src/webd/json.cpp goes over.
use virtualchime.Base.{
  ℕ, ◌+◌, ◌==◌, ◌||◌, false, true, [], ◌∷◌, ◌++◌, ◌≡◌, refl, ap, ◌∙◌, arith, Option, ltb,
  strip_prefix-append, append_assoc, Bytes, length, length-append, ℤ,
}
use virtualchime.Text.{is_digit}
use virtualchime.Json.{
  JsonValue, Items, nil, item, Fields, end, field, ok, skip_whitespace, json_string, parse_literal,
}
use virtualchime.Json.Parser.{start_of, digit, append_item, closes_at_once}
use virtualchime.Json.Integers.{ends_number}
use virtualchime.Json.Render.{render_items, render_fields}

module _ {D : Type 0} where
  unfoldable pub append_items : Items D → Items D → Items D
  append_items done nil = done
  append_items done (item v items) = append_items (append_item done v) items

  pub append_items-item :
      (v : JsonValue D) (done items : Items D)
      → append_items (item v done) items ≡ item v (append_items done items)
  unfolding append_items
  append_items-item v done nil = refl
  append_items-item v done (item w items) = append_items-item v (append_item done w) items

  pub append_items-nil : (items : Items D) → append_items nil items ≡ items
  unfolding append_items
  append_items-nil nil = refl
  append_items-nil (item v items) =
      append_items-item v nil items ∙ ap (item v) (append_items-nil items)

  pub append_items-single :
      (v : JsonValue D) (items : Items D) → append_items (item v nil) items ≡ item v items
  append_items-single v items = append_items-item v nil items ∙ ap (item v) (append_items-nil items)

  pub parse_literal-append :
      (literal : Bytes) (value : JsonValue D) (rest : Bytes)
      → parse_literal literal value (literal ++ rest) ≡ ok value rest
  unfolding parse_literal
  parse_literal-append literal value rest =
      let long : ltb (length (literal ++ rest)) (length literal) ≡ false =
        ground (arith, length-append literal rest) in
      rw (strip_prefix-append literal rest, long, parse_literal) refl

pub assoc3 : (a b c d : Bytes) → (a ++ (b ++ c)) ++ d ≡ a ++ (b ++ (c ++ d))
assoc3 a b c d = append_assoc a (b ++ c) d ∙ ap (λ x. a ++ x) (append_assoc b c d)

pub member_text :
    (a b c d e : Bytes) → (a ++ b':' ∷ (b ++ (c ++ d))) ++ e ≡ a ++ b':' ∷ (b ++ (c ++ (d ++ e)))
member_text a b c d e =
    append_assoc a (b':' ∷ (b ++ (c ++ d))) e ∙ ap (λ x. a ++ b':' ∷ x) (assoc3 b c d e)

pub length-text : (a b : Bytes) (c : ℕ) → length (a ++ (b ++ c ∷ [])) ≡ length a + length b + 1
length-text a b c = omega (arith, length-append a (b ++ c ∷ []), length-append b (c ∷ []))

pub length-member :
    (a b c : Bytes) → length (a ++ b':' ∷ (b ++ c)) ≡ length a + length b + length c + 1
length-member a b c = omega (arith, length-append a (b':' ∷ (b ++ c)), length-append b c)

pub field_text : (a b c d : Bytes) → (a ++ b':' ∷ (b ++ c)) ++ d ≡ a ++ b':' ∷ (b ++ (c ++ d))
field_text a b c d =
    append_assoc a (b':' ∷ (b ++ c)) d ∙ ap (λ x. a ++ b':' ∷ x) (append_assoc b c d)

pub skip-json_string : (k t : Bytes) → skip_whitespace (json_string k ++ t) ≡ json_string k ++ t
unfolding skip_whitespace json_string
skip-json_string k t = refl

pub closes-json_string : (k t : Bytes) → closes_at_once b'}' (json_string k ++ t) ≡ Option.none
unfolding json_string
closes-json_string k t = refl

pub start_of-digit : (c : ℕ) → ((c == b'-') || is_digit c) ≡ true → start_of c ≡ digit
start_of-digit c h = ground (arith, h)

-- What follows an item ends a number.
pub items-ends_number :
    (items : Items ℤ) (rest : Bytes) → ends_number (render_items items ++ b']' ∷ rest) ≡ true
unfolding render_items
items-ends_number nil rest = refl
items-ends_number (item v items) rest = refl

pub fields-ends_number :
    (fields : Fields ℤ) (rest : Bytes) → ends_number (render_fields fields ++ b'}' ∷ rest) ≡ true
unfolding render_fields
fields-ends_number end rest = refl
fields-ends_number (field k v fields) rest = refl
