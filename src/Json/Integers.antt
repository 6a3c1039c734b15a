-- ===== src/Json/Integers.antt =====
-- `ParseNumber` on what `JsonNumber` of chime/src/webd/json.cpp wrote.
use virtualchime.Base.{
  ◌⊎◌, ℕ, zero, suc, ◌+◌, ◌/◌, ◌%◌, ◌≤◌, ◌==◌, Bool, true, false, not, ◌||◌, [], ◌∷◌, ◌++◌, ◌≡◌,
  inl, inr, refl, sym, ap, ◌∙◌, arith, Option, some, ltb, all, append-nil, Bytes, Bool-cases, ℤ,
  pos, negsuc,
}
use virtualchime.Text.{is_digit, decimal, nat_to_string, to_string}
use virtualchime.Text.Number.{all-decimal}
use virtualchime.Json.{
  ok, take_digits, number_sign, number_whole, number_fraction, number_exponent, number_text,
  parse_number, json_number, then_part,
}

-- The text cannot go on a number.
abbrev pub ends_number : Bytes → Bool
ends_number [] = true
ends_number (c ∷ cs) = not (is_digit c || ((c == b'.') || ((c == b'e') || (c == b'E'))))

abbrev starts_nonzero : Bytes → Bool
starts_nonzero [] = false
starts_nonzero (c ∷ cs) = not (c == b'0')

decimal-starts_nonzero :
    (fuel n : ℕ) (tail : Bytes) → suc n ≤ fuel → 1 ≤ n → starts_nonzero (decimal fuel n tail) ≡ true
unfolding decimal
decimal-starts_nonzero zero n tail h k = absurd (omega arith)
decimal-starts_nonzero (suc fuel) n tail h k = elim (Bool-cases (ltb n 10)) [
  | inl small ↦ simp small (ground arith)
  | inr big ↦ simp big (
      decimal-starts_nonzero fuel (n / 10) ((b'0' + n % 10) ∷ tail) (ground (arith, big))
        (ground (arith, big)))
]

take_digits-append :
    (ds rest : Bytes)
    → all is_digit ds ≡ true
    → ends_number rest ≡ true
    → take_digits (ds ++ rest) ≡ (ds, rest)
unfolding take_digits
take_digits-append [] [] h k = refl
take_digits-append [] (c ∷ rest) h k =
    let plain : is_digit c ≡ false = ground (arith, k) in rw (plain, take_digits) refl
take_digits-append (d ∷ ds) rest h k =
    let digit : is_digit d ≡ true = ground (arith, h) in
    let later = take_digits-append ds rest (ground (arith, h)) k in
    rw (digit, take_digits) (ap (λ (x : Bytes × Bytes). (d ∷ x.0, x.1)) later)

-- The digits of a number that is not negative, without a leading zero but for zero itself.
record WholeText (ds : Bytes) : Type 0 where
  digits : all is_digit ds ≡ true
  first : (starts_nonzero ds ≡ true) ⊎ (ds ≡ b'0' ∷ [])

nat_to_string-WholeText : (n : ℕ) → WholeText (nat_to_string n)
unfolding decimal
nat_to_string-WholeText zero = record { digits = refl; first = inr refl }
nat_to_string-WholeText (suc n) = record {
  digits = all-decimal (suc (suc n)) (suc n) [] refl;
  first = inl (decimal-starts_nonzero (suc (suc n)) (suc n) [] (omega arith) (omega arith));
}

number_whole-digits :
    (ds rest : Bytes)
    → WholeText ds
    → ends_number rest ≡ true
    → number_whole (ds ++ rest) ≡ some (ds, rest)
unfolding number_whole
number_whole-digits [] rest w k = elim w.first [ inl e ↦ absurd (cc e) | inr e ↦ absurd (cc e) ]
number_whole-digits (c ∷ ds) rest w k = elim w.first [
  | inr e ↦ ap (λ x. number_whole (x ++ rest)) e ∙ ap (λ x. some (x, rest)) (sym e)
  | inl e ↦
      let nonzero : (c == b'0') ≡ false = ground (arith, e) in
      simp (nonzero, take_digits-append (c ∷ ds) rest w.digits k) refl
]

number_sign-digits : (ds rest : Bytes) → WholeText ds → number_sign (ds ++ rest) ≡ ([], ds ++ rest)
unfolding number_sign
number_sign-digits [] rest w = elim w.first [ inl e ↦ absurd (cc e) | inr e ↦ absurd (cc e) ]
number_sign-digits (c ∷ ds) rest w =
    let plain : (c == b'-') ≡ false = ground (arith, w.digits) in rw plain refl

number_fraction-none :
    (rest : Bytes) → ends_number rest ≡ true → number_fraction rest ≡ some ([], rest)
unfolding number_fraction
number_fraction-none [] k = refl
number_fraction-none (c ∷ rest) k =
    let plain : (c == b'.') ≡ false = ground (arith, k) in rw plain refl

number_exponent-none :
    (rest : Bytes) → ends_number rest ≡ true → number_exponent rest ≡ some ([], rest)
unfolding number_exponent
number_exponent-none [] k = refl
number_exponent-none (c ∷ rest) k =
    let plain : ((c == b'e') || (c == b'E')) ≡ false = ground (arith, k) in rw plain refl

then_whole :
    (sign ds rest : Bytes)
    → WholeText ds
    → ends_number rest ≡ true
    → then_part
        (then_part (then_part (some (sign, ds ++ rest)) number_whole) number_fraction)
        number_exponent
      ≡ some (sign ++ ds, rest)
then_whole sign ds rest w k =
    rw (number_whole-digits ds rest w k, number_fraction-none rest k, number_exponent-none rest k)
      (simp append-nil refl)

number_text-to_string :
    (z : ℤ) (rest : Bytes)
    → ends_number rest ≡ true
    → number_text (to_string z ++ rest) ≡ some (to_string z, rest)
unfolding number_text to_string
number_text-to_string (pos n) rest k =
    let w = nat_to_string-WholeText n in
    rw (number_sign-digits (nat_to_string n) rest w) (then_whole [] (nat_to_string n) rest w k)
number_text-to_string (negsuc n) rest k =
    then_whole (b'-' ∷ []) (nat_to_string (suc n)) rest (nat_to_string-WholeText (suc n)) k

-- `ParseNumber` reads an integer that `JsonNumber` wrote as the double that `strtod` gives for its
-- text, if nothing behind it goes on the number.
pub parse_number-json_number :
    {D : Type 0} (strtod : Bytes → Option D) (d : D) (z : ℤ) (rest : Bytes)
    → ends_number rest ≡ true
    → strtod (json_number z) ≡ some d
    → parse_number strtod (json_number z ++ rest) ≡ ok d rest
unfolding parse_number json_number
parse_number-json_number strtod d z rest k h =
    rw (number_text-to_string z rest k, parse_number) (rw h refl)

start_of_digits :
    (ds : Bytes)
    → WholeText ds
    → (c : ℕ) × (cs : Bytes) × (ds ≡ c ∷ cs) × (((c == b'-') || is_digit c) ≡ true)
start_of_digits [] w = elim w.first [ inl e ↦ absurd (cc e) | inr e ↦ absurd (cc e) ]
start_of_digits (c ∷ ds) w = (c, ds, refl, ground (arith, w.digits))

-- The first byte of an integer.
pub json_number-start :
    (z : ℤ)
    → (c : ℕ) × (cs : Bytes) × (json_number z ≡ c ∷ cs) × (((c == b'-') || is_digit c) ≡ true)
unfolding json_number to_string
json_number-start (negsuc n) = (b'-', nat_to_string (suc n), refl, refl)
json_number-start (pos n) = start_of_digits (nat_to_string n) (nat_to_string-WholeText n)
