-- ===== src/Json/Fuel/Values.antt =====
-- `ParseJson` of chime/src/webd/json.cpp comes to an end on every input.
use virtualchime.Base.{
  ℕ, zero, suc, ◌*◌, ◌+◌, ◌≤◌, ◌==◌, ◌⊎◌, refl, ◌≡◌, [], ◌∷◌, inl, inr, arith, length, Bytes,
  Bool-cases, Option-cases, Option, none, some, codes, is_empty,
}
use virtualchime.Json.{
  Outcome, ok, failed, out_of_fuel, bind, skip_whitespace, number_text, parse_number, JsonValue,
  object, array, Fields, Items, end, nil,
}
use virtualchime.Json.Parser.{
  Start, start_of, brace, bracket, quote, t_literal, f_literal, n_literal, digit, other, Next,
  next_of, closed, more, wrong, expect_colon, closes_at_once, append_item, put, string_value,
  number_value, parse_started, parse_value, fields_loop, items_loop, finish, parse_json,
}
use virtualchime.Json.Fuel.{
  Leaves, leaves, fails, bind-Leaves, skip_whitespace-le, parse_string-Leaves, Shrinks-le,
  number_text-Shrinks, parse_literal-Leaves,
}

closes_at_once-le :
    (close : ℕ) (s r : Bytes) → closes_at_once close s ≡ some r → suc (length r) ≤ length s
closes_at_once-le close [] r h = absurd (cc h)
closes_at_once-le close (c ∷ cs) r h = ground (arith, h)

-- The text behind an item is shorter than `n`.
data Behind (n : ℕ) : Next → Type 0 where
  at_end : {r : Bytes} → suc (length r) ≤ n → Behind n (closed r)
  goes_on : {r : Bytes} → suc (length r) ≤ n → Behind n (more r)
  is_wrong : {e : Bytes} → Behind n (wrong e)

next_of-Behind : (close : ℕ) (a b s : Bytes) → Behind (length s) (next_of close a b s)
unfolding next_of
next_of-Behind close a b [] = is_wrong
next_of-Behind close a b (c ∷ cs) = elim (Bool-cases (c == close)) [
  | inl e ↦ rw e (at_end (omega arith))
  | inr e ↦ elim (Bool-cases (c == b',')) [
    | inl f ↦ rw (e, f) (goes_on (omega arith))
    | inr f ↦ rw (e, f) is_wrong
  ]
]

Behind-Leaves :
    {A : Type 0} {m n : ℕ} {x : Next} (ends continues : Bytes → Outcome A)
    → Behind m x
    → ((r : Bytes) → suc (length r) ≤ m → Leaves n (ends r))
    → ((r : Bytes) → suc (length r) ≤ m → Leaves n (continues r))
    → Leaves n (elim x [ closed r ↦ ends r | more r ↦ continues r | wrong e ↦ failed e ])
Behind-Leaves ends continues (at_end {r} h) f g = f r h
Behind-Leaves ends continues (goes_on {r} h) f g = g r h
Behind-Leaves ends continues is_wrong f g = fails

expect_colon-Leaves : (s : Bytes) → Leaves (length s) (expect_colon s)
unfolding expect_colon
expect_colon-Leaves [] = fails
expect_colon-Leaves (c ∷ cs) = elim (Bool-cases (c == b':')) [
  | inl e ↦ rw e (leaves (omega arith))
  | inr e ↦ rw e fails
]

module _ {D : Type 0} (strtod : Bytes → Option D) where
  parse_number-Leaves :
      (s : Bytes) (n : ℕ) → length s ≤ suc n → Leaves (suc n) (parse_number strtod s)
  unfolding parse_number
  parse_number-Leaves s n h = elim (Option-cases (number_text s)) [
    | inl e ↦ rw (e, parse_number) fails
    | inr ((text, r), e) ↦ elim (Option-cases (strtod text)) [
      | inl d ↦ rw (e, d, parse_number) fails
      | inr (x, d) ↦
          let l = Shrinks-le e (number_text-Shrinks s n h) in
          rw (e, d, parse_number) (leaves (omega (arith, l)))
    ]
  ]

  string_value-Leaves :
      {n : ℕ} (s r : Bytes) → suc (length r) ≤ n → Leaves n (string_value {D = D} s r)
  string_value-Leaves s r h = leaves h

  number_value-Leaves :
      {n : ℕ} (d : D) (r : Bytes) → suc (length r) ≤ n → Leaves n (number_value d r)
  number_value-Leaves d r h = leaves h

  -- The loops leave fewer bytes than the text that they start from has.
  abbrev LoopLeaves : ℕ → (Bytes → Outcome (JsonValue D)) → Type 0
  LoopLeaves n loop = (s : Bytes) → length s ≤ n → Leaves (suc n) (loop s)

  container-Leaves :
      (close n : ℕ) (s : Bytes) (empty : JsonValue D) (loop : Bytes → Outcome (JsonValue D))
      → length s ≤ n
      → LoopLeaves n loop
      → Leaves (suc n) (elim (closes_at_once close s) [ some rest ↦ ok empty rest | none ↦ loop s ])
  container-Leaves close n s empty loop h f = elim (Option-cases (closes_at_once close s)) [
    | inr (r, e) ↦ rw e (leaves (omega (arith, closes_at_once-le close s r e)))
    | inl e ↦ rw e (f s h)
  ]

  parse_started-Leaves :
      (start : Start) (c : ℕ) (cs : Bytes) (members elements : Bytes → Outcome (JsonValue D))
      → LoopLeaves (length cs) members
      → LoopLeaves (length cs) elements
      → Leaves (suc (length cs)) (parse_started strtod start c cs members elements)
  unfolding parse_started
  parse_started-Leaves brace c cs members elements f g =
      container-Leaves b'}' (length cs) (skip_whitespace cs) (object end) members
        (skip_whitespace-le cs) f
  parse_started-Leaves bracket c cs members elements f g =
      container-Leaves b']' (length cs) (skip_whitespace cs) (array nil) elements
        (skip_whitespace-le cs) g
  parse_started-Leaves quote c cs members elements f g =
      bind-Leaves (parse_string-Leaves (c ∷ cs)) string_value-Leaves
  parse_started-Leaves t_literal c cs members elements f g =
      parse_literal-Leaves b't' (codes "rue") _ (c ∷ cs)
  parse_started-Leaves f_literal c cs members elements f g =
      parse_literal-Leaves b'f' (codes "alse") _ (c ∷ cs)
  parse_started-Leaves n_literal c cs members elements f g =
      parse_literal-Leaves b'n' (codes "ull") _ (c ∷ cs)
  parse_started-Leaves digit c cs members elements f g =
      bind-Leaves (parse_number-Leaves (c ∷ cs) (length cs) (omega arith)) number_value-Leaves
  parse_started-Leaves other c cs members elements f g = fails

  -- Fuel for a value, and for the rest of an object or an array.
  mutual
    unfolding parse_value

    parse_value-Leaves :
        (fuel : ℕ) (s : Bytes)
        → suc (2 * length s) ≤ fuel
        → Leaves (length s) (parse_value strtod fuel s)
    parse_value-Leaves zero s h = absurd (omega arith)
    parse_value-Leaves (suc fuel) [] h = fails
    parse_value-Leaves (suc fuel) (c ∷ cs) h =
        parse_started-Leaves (start_of c) c cs (λ s. fields_loop strtod fuel end s)
          (λ s. items_loop strtod fuel nil s)
          (λ s l. fields_loop-Leaves fuel end s (suc (length cs)) (omega arith) (omega arith))
          (λ s l. items_loop-Leaves fuel nil s (suc (length cs)) (omega arith) (omega arith))

    fields_loop-Leaves :
        (fuel : ℕ) (fields : Fields D) (s : Bytes) (n : ℕ)
        → 2 * length s + 2 ≤ fuel
        → length s ≤ n
        → Leaves n (fields_loop strtod fuel fields s)
    fields_loop-Leaves zero fields s n h k = absurd (omega arith)
    fields_loop-Leaves (suc fuel) fields [] n h k = fails
    fields_loop-Leaves (suc fuel) fields (c ∷ cs) n h k =
        bind-Leaves (parse_string-Leaves (c ∷ cs)) (λ key r1 l1.
          bind-Leaves (expect_colon-Leaves (skip_whitespace r1)) (λ colon r2 l2.
            bind-Leaves
              (parse_value-Leaves fuel (skip_whitespace r2)
                (omega (arith, l1, l2, skip_whitespace-le r1, skip_whitespace-le r2)))
              (λ value r3 l3.
                Behind-Leaves (λ rest. ok (object (put key value fields)) rest)
                  (λ rest. fields_loop strtod fuel (put key value fields) (skip_whitespace rest))
                  (next_of-Behind b'}' (codes "unterminated object")
                    (codes "expected ',' in object") (skip_whitespace r3))
                  (λ r l. leaves (
                    omega (
                      arith,
                      l,
                      l1,
                      l2,
                      l3,
                      skip_whitespace-le r1,
                      skip_whitespace-le r2,
                      skip_whitespace-le r3,
                    )))
                  (λ r l.
                    fields_loop-Leaves fuel (put key value fields) (skip_whitespace r) n
                      (omega (
                        arith,
                        l,
                        l1,
                        l2,
                        l3,
                        skip_whitespace-le r1,
                        skip_whitespace-le r2,
                        skip_whitespace-le r3,
                        skip_whitespace-le r,
                      ))
                      (omega (
                        arith,
                        l,
                        l1,
                        l2,
                        l3,
                        skip_whitespace-le r1,
                        skip_whitespace-le r2,
                        skip_whitespace-le r3,
                        skip_whitespace-le r,
                      ))))))

    items_loop-Leaves :
        (fuel : ℕ) (items : Items D) (s : Bytes) (n : ℕ)
        → 2 * length s + 2 ≤ fuel
        → length s ≤ n
        → Leaves n (items_loop strtod fuel items s)
    items_loop-Leaves zero items s n h k = absurd (omega arith)
    items_loop-Leaves (suc fuel) items [] n h k = fails
    items_loop-Leaves (suc fuel) items (c ∷ cs) n h k =
        bind-Leaves (parse_value-Leaves fuel (c ∷ cs) (omega arith)) (λ value r1 l1.
          Behind-Leaves (λ rest. ok (array (append_item items value)) rest)
            (λ rest. items_loop strtod fuel (append_item items value) (skip_whitespace rest))
            (next_of-Behind b']' (codes "unterminated array") (codes "expected ',' in array")
              (skip_whitespace r1))
            (λ r l. leaves (omega (arith, l, l1, skip_whitespace-le r1)))
            (λ r l.
              items_loop-Leaves fuel (append_item items value) (skip_whitespace r) n
                (omega (arith, l, l1, skip_whitespace-le r1, skip_whitespace-le r))
                (omega (arith, l, l1, skip_whitespace-le r1, skip_whitespace-le r))))

  finish-ends :
      (value : JsonValue D) (rest : Bytes)
      → (finish strtod value rest ≡ ok value [])
        ⊎ (e : Bytes) × (finish strtod value rest ≡ failed e)
  unfolding finish
  finish-ends value rest = elim (Bool-cases (is_empty (skip_whitespace rest))) [
    | inl e ↦ inl (rw e refl)
    | inr e ↦ inr (codes "unexpected trailing characters", rw e refl)
  ]

  bind-finish :
      {n : ℕ} (o : Outcome (JsonValue D))
      → Leaves n o
      → ((value : JsonValue D) × (bind o (finish strtod) ≡ ok value []))
        ⊎ ((e : Bytes) × (bind o (finish strtod) ≡ failed e))
  bind-finish (ok value rest) l = elim (finish-ends value rest) [
    | inl e ↦ inl (value, e)
    | inr f ↦ inr f
  ]
  bind-finish (failed e) l = inr (e, refl)
  bind-finish out_of_fuel l = elim l [ ]

-- `ParseJson` comes to an end on every input, with a value and nothing left of the text, or with an
-- error text: its nested loops and calls never run out of the fuel that the input's length gives.
pub parse_json-ends :
    {D : Type 0} (strtod : Bytes → Option D) (input : Bytes)
    → ((value : JsonValue D) × (parse_json strtod input ≡ ok value []))
      ⊎ ((error : Bytes) × (parse_json strtod input ≡ failed error))
unfolding parse_json
parse_json-ends strtod input =
    bind-finish strtod (parse_value strtod (suc (2 * length input)) (skip_whitespace input)) (
      parse_value-Leaves strtod (suc (2 * length input)) (skip_whitespace input)
        (omega (arith, skip_whitespace-le input)))
