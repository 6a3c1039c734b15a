-- ===== src/Json/Render.antt =====
-- The text of a document without blanks, as the handlers of chime/src/webd/web_server.cpp write
-- it with the writers of chime/src/webd/json.cpp, and the value that the parser is to give for it.
use virtualchime.Base.{
  Bool, false, true, not, ◌||◌, ◌==◌, ℕ, [], ◌∷◌, ◌++◌, ◌≡◌, refl, ap, ◌∙◌, sym, Option, some,
  Bytes, codes, ℤ, arith,
}
use virtualchime.Text.{is_digit}
use virtualchime.Json.{
  JsonValue, null, bool, number, string, array, object, Items, nil, item, Fields, end, field,
  is_json_space, json_string, json_bool, json_number, skip_whitespace,
}
use virtualchime.Json.Parser.{put, closes_at_once}
use virtualchime.Json.Quoted.{cleaned}
use virtualchime.Json.Integers.{json_number-start}

unfoldable mutual
  unfolding json_string json_bool json_number

  pub render : JsonValue ℤ → Bytes
  render null = codes "null"
  render (bool b) = json_bool b
  render (number z) = json_number z
  render (string s) = json_string s
  render (array nil) = codes "[]"
  render (array (item v items)) = b'[' ∷ (render v ++ (render_items items ++ b']' ∷ []))
  render (object end) = codes "{}"
  render (object (field k v fields)) =
      b'{' ∷ (json_string k ++ b':' ∷ (render v ++ (render_fields fields ++ b'}' ∷ [])))

  -- The items behind the first.
  pub render_items : Items ℤ → Bytes
  render_items nil = []
  render_items (item v items) = b',' ∷ (render v ++ render_items items)

  pub render_fields : Fields ℤ → Bytes
  render_fields end = []
  render_fields (field k v fields) =
      b',' ∷ (json_string k ++ b':' ∷ (render v ++ render_fields fields))

module _ {D : Type 0} (of_int : ℤ → D) where
  -- Strings are cleaned, and of two fields with one name the last one counts.
  unfoldable mutual
    unfolding put cleaned

    pub embed : JsonValue ℤ → JsonValue D
    embed null = null
    embed (bool b) = bool b
    embed (number z) = number (of_int z)
    embed (string s) = string (cleaned s)
    embed (array items) = array (embed_items items)
    embed (object fields) = object (embed_fields end fields)

    pub embed_items : Items ℤ → Items D
    embed_items nil = nil
    embed_items (item v items) = item (embed v) (embed_items items)

    pub embed_fields : Fields D → Fields ℤ → Fields D
    embed_fields done end = done
    embed_fields done (field k v fields) = embed_fields (put (cleaned k) (embed v) done) fields

  -- `strtod` reads each number of the document.
  unfoldable mutual
    unfolding json_number

    pub Reads : (Bytes → Option D) → JsonValue ℤ → Type 0
    Reads strtod null = Unit
    Reads strtod (bool b) = Unit
    Reads strtod (number z) = strtod (json_number z) ≡ some (of_int z)
    Reads strtod (string s) = Unit
    Reads strtod (array items) = ReadsItems strtod items
    Reads strtod (object fields) = ReadsFields strtod fields

    pub ReadsItems : (Bytes → Option D) → Items ℤ → Type 0
    ReadsItems strtod nil = Unit
    ReadsItems strtod (item v items) = Reads strtod v × ReadsItems strtod items

    pub ReadsFields : (Bytes → Option D) → Fields ℤ → Type 0
    ReadsFields strtod end = Unit
    ReadsFields strtod (field k v fields) = Reads strtod v × ReadsFields strtod fields

abbrev pub begins_value : ℕ → Bool
begins_value c = not (is_json_space c || (c == b']'))

pub record Begins (s : Bytes) : Type 0 where
  pub first : ℕ
  pub others : Bytes
  pub whole : s ≡ first ∷ others
  pub begins : begins_value first ≡ true

digit-begins : (c : ℕ) → ((c == b'-') || is_digit c) ≡ true → begins_value c ≡ true
digit-begins c h = ground (arith, h)

-- No value starts with a blank or a closing bracket.
pub render-Begins : (v : JsonValue ℤ) → Begins (render v)
unfolding render
render-Begins null = record { first = b'n'; others = codes "ull"; whole = refl; begins = refl }
render-Begins (bool true) = record {
  first = b't';
  others = codes "rue";
  whole = refl;
  begins = refl;
}
render-Begins (bool false) = record {
  first = b'f';
  others = codes "alse";
  whole = refl;
  begins = refl;
}
render-Begins (number z) =
    let (c, cs, e, h) = json_number-start z in
    record { first = c; others = cs; whole = e; begins = digit-begins c h }
render-Begins (string s) = record { first = b'"'; others = _; whole = refl; begins = refl }
render-Begins (array nil) = record { first = b'['; others = codes "]"; whole = refl; begins = refl }
render-Begins (array (item v items)) = record {
  first = b'[';
  others = _;
  whole = refl;
  begins = refl;
}
render-Begins (object end) = record {
  first = b'{';
  others = codes "}";
  whole = refl;
  begins = refl;
}
render-Begins (object (field k v fields)) = record {
  first = b'{';
  others = _;
  whole = refl;
  begins = refl;
}

skip-Begins : (s rest : Bytes) → Begins s → skip_whitespace (s ++ rest) ≡ s ++ rest
unfolding skip_whitespace
skip-Begins s rest b =
    let plain : is_json_space b.first ≡ false = ground (arith, b.begins) in
    let start : skip_whitespace (b.first ∷ (b.others ++ rest)) ≡ b.first ∷ (b.others ++ rest) =
      rw (plain, skip_whitespace) refl in
    ap (λ x. skip_whitespace (x ++ rest)) b.whole ∙ start ∙ ap (λ x. x ++ rest) (sym b.whole)

pub skip-render :
    (v : JsonValue ℤ) (rest : Bytes) → skip_whitespace (render v ++ rest) ≡ render v ++ rest
skip-render v rest = skip-Begins (render v) rest (render-Begins v)

pub closes-render :
    (v : JsonValue ℤ) (rest : Bytes) → closes_at_once b']' (render v ++ rest) ≡ Option.none
closes-render v rest =
    let b = render-Begins v in
    let plain : (b.first == b']') ≡ false = ground (arith, b.begins) in
    ap (λ x. closes_at_once b']' (x ++ rest)) b.whole ∙ (rw plain refl)
