-- ===== src/Json/Steps.antt =====
-- The parsers of chime/src/webd/json.cpp at the pieces of a document that the server wrote.
use virtualchime.Base.{
  ℕ, suc, true, [], ◌∷◌, ◌++◌, ◌≡◌, refl, sym, ap, ◌∙◌, Option, some, none, append_assoc, Bytes,
  codes, ℤ,
}
use virtualchime.Json.{
  JsonValue, number, string, array, object, Items, nil, item, Fields, end, field, Outcome, ok, bind,
  skip_whitespace, json_string, json_number, parse_string, parse_number,
}
use virtualchime.Json.Parser.{
  Start, put, append_item, closes_at_once, string_value, number_value, parse_value, fields_loop,
  items_loop, parse_started, Next, next_of, expect_colon,
}
use virtualchime.Json.Quoted.{cleaned, parse_string-json_string}
use virtualchime.Json.Integers.{ends_number, parse_number-json_number, json_number-start}
use virtualchime.Json.Render.{
  render, render_items, render_fields, render-Begins, skip-render, closes-render,
}
use virtualchime.Json.Pieces.{
  assoc3, member_text, field_text, skip-json_string, closes-json_string, start_of-digit,
}

module _ {D : Type 0} (strtod : Bytes → Option D) where
  pub parse_value-number :
      (z : ℤ) (d : D) (fuel : ℕ) (rest : Bytes)
      → ends_number rest ≡ true
      → strtod (json_number z) ≡ Option.some d
      → parse_value strtod (suc fuel) (json_number z ++ rest) ≡ ok (number d) rest
  unfolding parse_value
  parse_value-number z d fuel rest e h =
      let (c, cs, whole, starts) = json_number-start z in
      let started : parse_value strtod (suc fuel) ((c ∷ cs) ++ rest)
          ≡ bind (parse_number strtod ((c ∷ cs) ++ rest)) number_value =
        (unfold parse_started in rw (start_of-digit c starts, parse_started) refl) in
      ap (λ x. parse_value strtod (suc fuel) (x ++ rest)) whole
      ∙ started
      ∙ ap (λ x. bind (parse_number strtod (x ++ rest)) number_value) (sym whole)
      ∙ ap (λ x. bind x number_value) (parse_number-json_number strtod d z rest e h)

  pub parse_value-string :
      (s : Bytes) (fuel : ℕ) (rest : Bytes)
      → parse_value strtod (suc fuel) (json_string s ++ rest) ≡ ok (string (cleaned s)) rest
  unfolding parse_value
  parse_value-string s fuel rest =
      let started : parse_value strtod (suc fuel) (json_string s ++ rest)
          ≡ bind (parse_string (json_string s ++ rest)) string_value =
        (unfold json_string in unfold parse_started in refl) in
      started ∙ ap (λ x. bind x string_value) (parse_string-json_string s rest)

  module _ (members elements : Bytes → Outcome (JsonValue D)) (x y : Bytes) where
    started_bracket :
        skip_whitespace x ≡ y
        → closes_at_once b']' y ≡ Option.none
        → parse_started strtod Start.bracket b'[' x members elements ≡ elements y
    unfolding parse_started
    started_bracket e c =
        ap
          (λ (z : Bytes). elim (closes_at_once b']' z) as (λ o. Outcome (JsonValue D)) [
            | some rest ↦ ok (array nil) rest
            | none ↦ elements z
          ])
          e
        ∙ (rw c refl)

    started_brace :
        skip_whitespace x ≡ y
        → closes_at_once b'}' y ≡ Option.none
        → parse_started strtod Start.brace b'{' x members elements ≡ members y
    unfolding parse_started
    started_brace e c =
        ap
          (λ (z : Bytes). elim (closes_at_once b'}' z) as (λ o. Outcome (JsonValue D)) [
            | some rest ↦ ok (object end) rest
            | none ↦ members z
          ])
          e
        ∙ (rw c refl)

  open_bracket :
      (fuel : ℕ) (x y : Bytes)
      → skip_whitespace x ≡ y
      → closes_at_once b']' y ≡ Option.none
      → parse_value strtod (suc fuel) (b'[' ∷ x) ≡ items_loop strtod fuel nil y
  unfolding parse_value
  open_bracket fuel x y e c =
      started_bracket (λ s. fields_loop strtod fuel end s) (λ s. items_loop strtod fuel nil s) x y e
        c

  open_brace :
      (fuel : ℕ) (x y : Bytes)
      → skip_whitespace x ≡ y
      → closes_at_once b'}' y ≡ Option.none
      → parse_value strtod (suc fuel) (b'{' ∷ x) ≡ fields_loop strtod fuel end y
  unfolding parse_value
  open_brace fuel x y e c =
      started_brace (λ s. fields_loop strtod fuel end s) (λ s. items_loop strtod fuel nil s) x y e c

  pub open_array :
      (v : JsonValue ℤ) (items : Items ℤ) (fuel : ℕ) (rest : Bytes)
      → parse_value strtod (suc fuel) (render (array (item v items)) ++ rest)
        ≡ items_loop strtod fuel nil (render v ++ (render_items items ++ b']' ∷ rest))
  unfolding render
  open_array v items fuel rest =
      let tail = render_items items ++ b']' ∷ rest in
      open_bracket fuel ((render v ++ (render_items items ++ b']' ∷ [])) ++ rest) (render v ++ tail)
        (ap skip_whitespace (assoc3 (render v) (render_items items) (b']' ∷ []) rest)
          ∙ skip-render v tail)
        (closes-render v tail)

  pub open_object :
      (k : Bytes) (v : JsonValue ℤ) (fields : Fields ℤ) (fuel : ℕ) (rest : Bytes)
      → parse_value strtod (suc fuel) (render (object (field k v fields)) ++ rest)
        ≡ fields_loop strtod fuel end
            (json_string k ++ b':' ∷ (render v ++ (render_fields fields ++ b'}' ∷ rest)))
  unfolding render
  open_object k v fields fuel rest =
      let tail = render v ++ (render_fields fields ++ b'}' ∷ rest) in
      let inner = render v ++ (render_fields fields ++ b'}' ∷ []) in
      open_brace fuel ((json_string k ++ b':' ∷ inner) ++ rest) (json_string k ++ b':' ∷ tail)
        (ap skip_whitespace
            (member_text (json_string k) (render v) (render_fields fields) (b'}' ∷ []) rest)
          ∙ skip-json_string k (b':' ∷ tail))
        (closes-json_string k (b':' ∷ tail))

  -- What the loops do behind a value.
  abbrev pub after_item : ℕ → Items D → JsonValue D → Bytes → Outcome (JsonValue D)
  after_item fuel done value r =
      elim (next_of b']' (codes "unterminated array") (codes "expected ',' in array")
        (skip_whitespace r)) [
          | Next.closed rest ↦ ok (array (append_item done value)) rest
          | Next.more rest ↦ items_loop strtod fuel (append_item done value) (skip_whitespace rest)
          | Next.wrong error ↦ Outcome.failed error
        ]

  abbrev pub after_field : ℕ → Fields D → Bytes → JsonValue D → Bytes → Outcome (JsonValue D)
  after_field fuel done key value r =
      elim (next_of b'}' (codes "unterminated object") (codes "expected ',' in object")
        (skip_whitespace r)) [
          | Next.closed rest ↦ ok (object (put key value done)) rest
          | Next.more rest ↦ fields_loop strtod fuel (put key value done) (skip_whitespace rest)
          | Next.wrong error ↦ Outcome.failed error
        ]

  pub first_item :
      (done : Items D) (v : JsonValue ℤ) (fuel : ℕ) (rest : Bytes) (value : JsonValue D)
      → parse_value strtod fuel (render v ++ rest) ≡ ok value rest
      → items_loop strtod (suc fuel) done (render v ++ rest) ≡ after_item fuel done value rest
  unfolding parse_value
  first_item done v fuel rest value h =
      let b = render-Begins v in
      ap (λ x. items_loop strtod (suc fuel) done (x ++ rest)) b.whole
      ∙ ap (λ x. bind (parse_value strtod fuel (x ++ rest)) (after_item fuel done)) (sym b.whole)
      ∙ ap (λ x. bind x (after_item fuel done)) h

  pub next_item :
      (done : Items D) (value : JsonValue D) (w : JsonValue ℤ) (items : Items ℤ) (fuel : ℕ)
      (rest : Bytes)
      → after_item fuel done value (render_items (item w items) ++ b']' ∷ rest)
        ≡ items_loop strtod fuel
            (append_item done value)
            (render w ++ (render_items items ++ b']' ∷ rest))
  unfolding render next_of skip_whitespace items_loop
  next_item done value w items fuel rest =
      let tail = render_items items ++ b']' ∷ rest in
      ap (λ x. items_loop strtod fuel (append_item done value) x)
        (ap skip_whitespace (append_assoc (render w) (render_items items) (b']' ∷ rest))
          ∙ skip-render w tail)

  pub first_field :
      (done : Fields D) (k : Bytes) (v : JsonValue ℤ) (fuel : ℕ) (rest : Bytes)
      (value : JsonValue D)
      → parse_value strtod fuel (render v ++ rest) ≡ ok value rest
      → fields_loop strtod (suc fuel) done (json_string k ++ b':' ∷ (render v ++ rest))
        ≡ after_field fuel done (cleaned k) value rest
  unfolding parse_value expect_colon
  first_field done k v fuel rest value h =
      let behind_key : Bytes → Bytes → Outcome (JsonValue D) = λ key r1.
        bind (expect_colon (skip_whitespace r1)) (λ colon r2.
          bind (parse_value strtod fuel (skip_whitespace r2)) (after_field fuel done key)) in
      let text = json_string k ++ b':' ∷ (render v ++ rest) in
      let start : fields_loop strtod (suc fuel) done text ≡ bind (parse_string text) behind_key =
        (unfold json_string in refl) in
      start
      ∙ ap (λ x. bind x behind_key) (parse_string-json_string k (b':' ∷ (render v ++ rest)))
      ∙ ap (λ x. bind (parse_value strtod fuel x) (after_field fuel done (cleaned k)))
          (skip-render v rest)
      ∙ ap (λ x. bind x (after_field fuel done (cleaned k))) h

  pub next_field :
      (done : Fields D) (key : Bytes) (value : JsonValue D) (k : Bytes) (v : JsonValue ℤ)
      (fields : Fields ℤ) (fuel : ℕ) (rest : Bytes)
      → after_field fuel done key value (render_fields (field k v fields) ++ b'}' ∷ rest)
        ≡ fields_loop strtod fuel
            (put key value done)
            (json_string k ++ b':' ∷ (render v ++ (render_fields fields ++ b'}' ∷ rest)))
  unfolding render next_of skip_whitespace fields_loop
  next_field done key value k v fields fuel rest =
      let tail = b':' ∷ (render v ++ (render_fields fields ++ b'}' ∷ rest)) in
      ap (λ x. fields_loop strtod fuel (put key value done) x)
        (ap skip_whitespace
            (field_text (json_string k) (render v) (render_fields fields) (b'}' ∷ rest))
          ∙ skip-json_string k tail)

  pub last_item :
      (done : Items D) (value : JsonValue D) (fuel : ℕ) (rest : Bytes)
      → after_item fuel done value (b']' ∷ rest) ≡ ok (array (append_item done value)) rest
  unfolding next_of skip_whitespace
  last_item done value fuel rest = refl

  pub last_field :
      (done : Fields D) (key : Bytes) (value : JsonValue D) (fuel : ℕ) (rest : Bytes)
      → after_field fuel done key value (b'}' ∷ rest) ≡ ok (object (put key value done)) rest
  unfolding next_of skip_whitespace
  last_field done key value fuel rest = refl
