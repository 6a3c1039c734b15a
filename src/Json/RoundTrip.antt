-- ===== src/Json/RoundTrip.antt =====
-- `ParseJson` of chime/src/webd/json.cpp on a document that the server wrote.
use virtualchime.Base.{
  ℕ, zero, suc, ◌+◌, ◌*◌, ◌≤◌, false, true, [], ◌∷◌, ◌++◌, ◌≡◌, refl, sym, ap, ◌∙◌, arith, Option,
  append-nil, Bytes, codes, length, length-append, ℤ,
}
use virtualchime.Json.{
  JsonValue, null, bool, number, string, array, object, Items, nil, item, Fields, end, field, ok,
  bind, skip_whitespace, json_string,
}
use virtualchime.Json.Parser.{
  put, append_item, parse_value, fields_loop, items_loop, parse_started, parse_json, finish,
}
use virtualchime.Json.Quoted.{cleaned}
use virtualchime.Json.Integers.{ends_number}
use virtualchime.Json.Render.{
  render, render_items, render_fields, embed, embed_items, embed_fields, Reads, ReadsItems,
  ReadsFields, skip-render,
}
use virtualchime.Json.Pieces.{
  append_items, append_items-single, parse_literal-append, length-text, length-member,
}
use virtualchime.Json.Steps.{
  parse_value-number, parse_value-string, open_array, open_object, first_item, next_item, last_item,
  first_field, next_field, last_field,
}

module _ {D : Type 0} (strtod : Bytes → Option D) (of_int : ℤ → D) where
  -- The values without parts.
  data Plain : JsonValue ℤ → Type 0 where
    a_null : Plain null
    a_true : Plain (bool true)
    a_false : Plain (bool false)
    no_items : Plain (array nil)
    no_fields : Plain (object end)

  parse_value-Plain :
      (v : JsonValue ℤ) (fuel : ℕ) (rest : Bytes)
      → Plain v
      → parse_value strtod (suc fuel) (render v ++ rest) ≡ ok (embed of_int v) rest
  unfolding parse_value parse_started render embed
  parse_value-Plain null fuel rest a_null = parse_literal-append (codes "null") null rest
  parse_value-Plain (bool true) fuel rest a_true =
      parse_literal-append (codes "true") (bool true) rest
  parse_value-Plain (bool false) fuel rest a_false =
      parse_literal-append (codes "false") (bool false) rest
  parse_value-Plain (array nil) fuel rest no_items = refl
  parse_value-Plain (object end) fuel rest no_fields = refl
  parse_value-Plain (number _) fuel rest p = elim p [ ]
  parse_value-Plain (string _) fuel rest p = elim p [ ]
  parse_value-Plain (array (item _ _)) fuel rest p = elim p [ ]
  parse_value-Plain (object (field _ _ _)) fuel rest p = elim p [ ]

  mutual
    unfolding render Reads embed append_items

    parse_value-render :
        (v : JsonValue ℤ) (fuel : ℕ) (rest : Bytes)
        → 2 * length (render v) + 1 ≤ fuel
        → ends_number rest ≡ true
        → Reads of_int strtod v
        → parse_value strtod fuel (render v ++ rest) ≡ ok (embed of_int v) rest
    parse_value-render v zero rest h e r = absurd (omega arith)
    parse_value-render null (suc fuel) rest h e r = parse_value-Plain null fuel rest a_null
    parse_value-render (bool true) (suc fuel) rest h e r =
        parse_value-Plain (bool true) fuel rest a_true
    parse_value-render (bool false) (suc fuel) rest h e r =
        parse_value-Plain (bool false) fuel rest a_false
    parse_value-render (number z) (suc fuel) rest h e r =
        parse_value-number strtod z (of_int z) fuel rest e r
    parse_value-render (string s) (suc fuel) rest h e r = parse_value-string strtod s fuel rest
    parse_value-render (array nil) (suc fuel) rest h e r =
        parse_value-Plain (array nil) fuel rest no_items
    parse_value-render (array (item v items)) (suc fuel) rest h e r =
        open_array strtod v items fuel rest
        ∙ items_loop-render nil v items fuel rest
            (omega (arith, length-text (render v) (render_items items) b']')) r.0 r.1
        ∙ ap (λ x. ok (array x) rest)
            (append_items-single (embed of_int v) (embed_items of_int items))
    parse_value-render (object end) (suc fuel) rest h e r =
        parse_value-Plain (object end) fuel rest no_fields
    parse_value-render (object (field k v fields)) (suc fuel) rest h e r =
        open_object strtod k v fields fuel rest
        ∙ fields_loop-render end k v fields fuel rest
            (omega (
              arith,
              length-member (json_string k) (render v) (render_fields fields ++ b'}' ∷ []),
              length-append (render_fields fields) (b'}' ∷ []),
            ))
            r.0 r.1

    items_loop-render :
        (done : Items D) (v : JsonValue ℤ) (items : Items ℤ) (fuel : ℕ) (rest : Bytes)
        → 2 * length (render v) + 2 * length (render_items items) + 2 ≤ fuel
        → Reads of_int strtod v
        → ReadsItems of_int strtod items
        → items_loop strtod fuel done (render v ++ (render_items items ++ b']' ∷ rest))
          ≡ ok
              (array (append_items (append_item done (embed of_int v)) (embed_items of_int items)))
              rest
    items_loop-render done v items zero rest h r rs = absurd (omega arith)
    items_loop-render done v nil (suc fuel) rest h r rs =
        first_item strtod done v fuel (b']' ∷ rest) (embed of_int v)
          (parse_value-render v fuel (b']' ∷ rest) (omega arith) refl r)
        ∙ last_item strtod done (embed of_int v) fuel rest
    items_loop-render done v (item w items) (suc fuel) rest h r rs =
        let tail = render_items (item w items) ++ b']' ∷ rest in
        first_item strtod done v fuel tail (embed of_int v)
          (parse_value-render v fuel tail (omega arith) refl r)
        ∙ next_item strtod done (embed of_int v) w items fuel rest
        ∙ items_loop-render (append_item done (embed of_int v)) w items fuel rest
            (omega (arith, length-append (render w) (render_items items))) rs.0 rs.1

    fields_loop-render :
        (done : Fields D) (k : Bytes) (v : JsonValue ℤ) (fields : Fields ℤ) (fuel : ℕ)
        (rest : Bytes)
        → 2 * length (render v) + 2 * length (render_fields fields) + 2 ≤ fuel
        → Reads of_int strtod v
        → ReadsFields of_int strtod fields
        → fields_loop strtod fuel done
            (json_string k ++ b':' ∷ (render v ++ (render_fields fields ++ b'}' ∷ rest)))
          ≡ ok (object (embed_fields of_int (put (cleaned k) (embed of_int v) done) fields)) rest
    fields_loop-render done k v fields zero rest h r rs = absurd (omega arith)
    fields_loop-render done k v end (suc fuel) rest h r rs =
        first_field strtod done k v fuel (b'}' ∷ rest) (embed of_int v)
          (parse_value-render v fuel (b'}' ∷ rest) (omega arith) refl r)
        ∙ last_field strtod done (cleaned k) (embed of_int v) fuel rest
    fields_loop-render done k v (field l w fields) (suc fuel) rest h r rs =
        let tail = render_fields (field l w fields) ++ b'}' ∷ rest in
        first_field strtod done k v fuel tail (embed of_int v)
          (parse_value-render v fuel tail (omega arith) refl r)
        ∙ next_field strtod done (cleaned k) (embed of_int v) l w fields fuel rest
        ∙ fields_loop-render (put (cleaned k) (embed of_int v) done) l w fields fuel rest
            (omega (arith, length-member (json_string l) (render w) (render_fields fields))) rs.0
            rs.1

-- `ParseJson` reads each document that is written without blanks, of any depth, as the value it was
-- written from, with nothing left of the text, where `strtod` reads the document's integers: in its
-- strings the control bytes without an escape are question marks, and of two fields with one name
-- the last one counts.
pub parse_json-render :
    {D : Type 0} (strtod : Bytes → Option D) (of_int : ℤ → D) (v : JsonValue ℤ)
    → Reads of_int strtod v
    → parse_json strtod (render v) ≡ ok (embed of_int v) []
unfolding parse_json finish
parse_json-render strtod of_int v r =
    let whole : skip_whitespace (render v) ≡ render v ++ [] =
      ap skip_whitespace (sym (append-nil (render v))) ∙ skip-render v [] in
    ap (λ x. bind (parse_value strtod (suc (2 * length (render v))) x) (finish strtod)) whole
    ∙ ap (λ x. bind x (finish strtod))
        (parse_value-render strtod of_int v (suc (2 * length (render v))) [] (omega arith) refl r)
    ∙ (unfold skip_whitespace in refl)
