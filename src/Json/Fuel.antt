-- ===== src/Json/Fuel.antt =====
-- The lexical parsers of chime/src/webd/json.cpp come to an end, and take what they should.
pub mod Values
use virtualchime.Base.{
  ℕ, zero, suc, ◌*◌, ◌+◌, ◌≤◌, ◌==◌, ◌||◌, ◌⊎◌, refl, ◌≡◌, true, false, [], ◌∷◌, ◌++◌, inl, inr,
  arith, ltb, length, length-drop-le, take, Bytes, Bool-cases, Option-cases, Option, none, some,
  codes, strip_prefix, strip_prefix-eq-some, length-append, is_empty,
}
use virtualchime.Text.{is_digit}
use virtualchime.Json.{
  Outcome, ok, failed, out_of_fuel, bind, after, some_digits, skip_whitespace, is_json_space,
  parse_code, unicode_escape, read_escape, simple_escape, string_loop, parse_string, take_digits,
  number_sign, number_whole, number_fraction, number_exponent, exponent_sign, number_text,
  parse_number, parse_literal, then_part, JsonValue, object, array, Fields, Items, end, nil,
}
use virtualchime.Json.Parser.{
  Start, start_of, brace, bracket, quote, t_literal, f_literal, n_literal, digit, other, Next,
  next_of, closed, more, wrong, expect_colon, closes_at_once, append_item, put, string_value,
  number_value, parse_started, parse_value, fields_loop, items_loop, finish, parse_json,
}

-- The parser returns, and leaves less than `n` bytes.
pub data Leaves {A : Type 0} (n : ℕ) : Outcome A → Type 0 where
  leaves : {a : A} {r : Bytes} → suc (length r) ≤ n → Leaves n (ok a r)
  fails : {e : Bytes} → Leaves n (failed e)

pub bind-Leaves :
    {A B : Type 0} {m n : ℕ} {o : Outcome A} {k : A → Bytes → Outcome B}
    → Leaves m o
    → ((a : A) (r : Bytes) → suc (length r) ≤ m → Leaves n (k a r))
    → Leaves n (bind o k)
bind-Leaves (leaves {a} {r} h) f = f a r h
bind-Leaves fails f = fails

pub skip_whitespace-le : (s : Bytes) → length (skip_whitespace s) ≤ length s
unfolding skip_whitespace
skip_whitespace-le [] = omega arith
skip_whitespace-le (c ∷ cs) = elim (Bool-cases (is_json_space c)) [
  | inl e ↦ rw (e, skip_whitespace) (omega (arith, skip_whitespace-le cs))
  | inr e ↦ rw (e, skip_whitespace) (omega arith)
]

unicode_escape-Leaves : (s : Bytes) (n : ℕ) → suc (length s) ≤ n → Leaves n (unicode_escape s)
unfolding unicode_escape
unicode_escape-Leaves s n h = elim (Bool-cases (ltb (length s) 4)) [
  | inl e ↦ simp e fails
  | inr e ↦ elim (Option-cases (parse_code (take 4 s))) [
    | inl p ↦ rw (e, p, unicode_escape) fails
    | inr (code, p) ↦ rw (e, p, unicode_escape) (leaves (omega (arith, length-drop-le 4 s)))
  ]
]

read_escape-Leaves : (s : Bytes) → Leaves (length s) (read_escape s)
unfolding read_escape
read_escape-Leaves [] = fails
read_escape-Leaves (esc ∷ rest) = elim (Option-cases (simple_escape esc)) [
  | inr (c, e) ↦ rw (e, read_escape) (leaves (omega arith))
  | inl e ↦ elim (Bool-cases (esc == b'u')) [
    | inl u ↦ rw (e, u, read_escape) (unicode_escape-Leaves rest (suc (length rest)) (omega arith))
    | inr u ↦ rw (e, u, read_escape) fails
  ]
]

string_loop-Leaves :
    (fuel : ℕ) (out s : Bytes) (n : ℕ)
    → length s ≤ fuel
    → length s ≤ n
    → Leaves n (string_loop fuel out s)
unfolding string_loop
string_loop-Leaves zero out [] n h k = fails
string_loop-Leaves (suc fuel) out [] n h k = fails
string_loop-Leaves zero out (c ∷ cs) n h k = absurd (omega arith)
string_loop-Leaves (suc fuel) out (c ∷ cs) n h k = elim (Bool-cases (c == b'"')) [
  | inl q ↦ rw (q, string_loop) (leaves (omega arith))
  | inr q ↦ elim (Bool-cases (c == b'\\')) [
    | inl b ↦
        rw (q, b, string_loop)
          (bind-Leaves (read_escape-Leaves cs)
            (λ x r l. string_loop-Leaves fuel (out ++ x ∷ []) r n (omega arith) (omega arith)))
    | inr b ↦ elim (Bool-cases (ltb c 32)) [
      | inl l ↦ rw (q, b, l, string_loop) fails
      | inr l ↦
          rw (q, b, l, string_loop)
            (string_loop-Leaves fuel (out ++ c ∷ []) cs n (omega arith) (omega arith))
    ]
  ]
]

pub parse_string-Leaves : (s : Bytes) → Leaves (length s) (parse_string s)
unfolding parse_string
parse_string-Leaves [] = fails
parse_string-Leaves (c ∷ cs) = elim (Bool-cases (c == b'"')) [
  | inl e ↦
      rw e (string_loop-Leaves (length cs) [] cs (suc (length cs)) (omega arith) (omega arith))
  | inr e ↦ rw e fails
]

-- A part of a number that leaves at most `n` bytes.
pub data Shrinks (n : ℕ) : Option (Bytes × Bytes) → Type 0 where
  stops : Shrinks n none
  keeps : {t r : Bytes} → length r ≤ n → Shrinks n (some (t, r))

after-Shrinks :
    (front : Bytes) {n : ℕ} {o : Option (Bytes × Bytes)} → Shrinks n o → Shrinks n (after front o)
after-Shrinks front stops = stops
after-Shrinks front (keeps h) = keeps h

then_part-Shrinks :
    {m n : ℕ} {o : Option (Bytes × Bytes)} {part : Bytes → Option (Bytes × Bytes)}
    → Shrinks m o
    → ((r : Bytes) → length r ≤ m → Shrinks n (part r))
    → Shrinks n (then_part o part)
then_part-Shrinks stops f = stops
then_part-Shrinks (keeps {t} {r} h) f = after-Shrinks t (f r h)

take_digits-le : (s : Bytes) → length ((take_digits s).1) ≤ length s
unfolding take_digits
take_digits-le [] = omega arith
take_digits-le (c ∷ cs) = elim (Bool-cases (is_digit c)) [
  | inl e ↦ rw (e, take_digits) (omega (arith, take_digits-le cs))
  | inr e ↦ rw (e, take_digits) (omega arith)
]

some_digits-Shrinks : (x : Bytes × Bytes) (n : ℕ) → length (x.1) ≤ n → Shrinks n (some_digits x)
some_digits-Shrinks ([], r) n h = stops
some_digits-Shrinks (d ∷ ds, r) n h = keeps h

number_sign-le : (s : Bytes) → length ((number_sign s).1) ≤ length s
unfolding number_sign
number_sign-le [] = omega arith
number_sign-le (c ∷ cs) = ground arith

exponent_sign-le : (s : Bytes) → length ((exponent_sign s).1) ≤ length s
unfolding exponent_sign
exponent_sign-le [] = omega arith
exponent_sign-le (c ∷ cs) = ground arith

number_whole-Shrinks : (s : Bytes) (n : ℕ) → length s ≤ suc n → Shrinks n (number_whole s)
unfolding number_whole
number_whole-Shrinks [] n h = stops
number_whole-Shrinks (c ∷ cs) n h = elim (Bool-cases (c == b'0')) [
  | inl e ↦ rw e (keeps (omega arith))
  | inr e ↦ elim (Bool-cases (is_digit c)) [
    | inl d ↦ rw (e, d, take_digits) (keeps (omega (arith, take_digits-le cs)))
    | inr d ↦ rw (e, d, take_digits) stops
  ]
]

number_fraction-Shrinks : (s : Bytes) (n : ℕ) → length s ≤ n → Shrinks n (number_fraction s)
unfolding number_fraction
number_fraction-Shrinks [] n h = keeps h
number_fraction-Shrinks (c ∷ cs) n h = elim (Bool-cases (c == b'.')) [
  | inl e ↦ rw e (
      after-Shrinks (c ∷ [])
        (some_digits-Shrinks (take_digits cs) n (omega (arith, take_digits-le cs))))
  | inr e ↦ rw e (keeps h)
]

number_exponent-Shrinks : (s : Bytes) (n : ℕ) → length s ≤ n → Shrinks n (number_exponent s)
unfolding number_exponent
number_exponent-Shrinks [] n h = keeps h
number_exponent-Shrinks (c ∷ cs) n h = elim (Bool-cases ((c == b'e') || (c == b'E'))) [
  | inl e ↦
      let digits = (exponent_sign cs).1 in
      rw e (
        after-Shrinks (c ∷ (exponent_sign cs).0) (
          some_digits-Shrinks (take_digits digits) n
            (omega (arith, take_digits-le digits, exponent_sign-le cs))))
  | inr e ↦ rw e (keeps h)
]

-- A number takes at least one byte.
pub number_text-Shrinks : (s : Bytes) (n : ℕ) → length s ≤ suc n → Shrinks n (number_text s)
unfolding number_text
number_text-Shrinks s n h =
    let sign : Shrinks (suc n) (some (number_sign s)) = keeps (omega (arith, number_sign-le s)) in
    then_part-Shrinks
      (then_part-Shrinks (then_part-Shrinks sign (λ r l. number_whole-Shrinks r n l))
        (λ r l. number_fraction-Shrinks r n l))
      (λ r l. number_exponent-Shrinks r n l)

pub Shrinks-le :
    {n : ℕ} {o : Option (Bytes × Bytes)} {t r : Bytes}
    → o ≡ some (t, r)
    → Shrinks n o
    → length r ≤ n
Shrinks-le e stops = absurd (cc e)
Shrinks-le e (keeps h) = ground (arith, e)

pub parse_literal-Leaves :
    {A : Type 0} (c : ℕ) (literal : Bytes) (value : A) (s : Bytes)
    → Leaves (length s) (parse_literal (c ∷ literal) value s)
unfolding parse_literal
parse_literal-Leaves c literal value s = elim (Bool-cases (ltb (length s) (suc (length literal)))) [
  | inl e ↦ simp e fails
  | inr e ↦ elim (Option-cases (strip_prefix (c ∷ literal) s)) [
    | inl n ↦ rw (e, n, parse_literal) fails
    | inr (rest, n) ↦
        let l : suc (length rest) ≤ length s =
          rw (strip_prefix-eq-some (c ∷ literal) s rest n)
            (omega (arith, length-append literal rest)) in
        rw (e, n, parse_literal) (leaves l)
  ]
]
