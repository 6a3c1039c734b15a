-- ===== src/Text/Number.antt =====
-- Numbers: the decimal text of a number is read back by `strtol`, and a parsed number is in range.
use virtualchime.Base.{
  ℕ, zero, suc, ◌+◌, ◌-◌, ◌*◌, ◌/◌, ◌%◌, ◌≤◌, ◌<◌, true, false, [], ◌∷◌, ◌≡◌, inl, inr, refl, ap,
  ◌∙◌, arith, Bool-cases, is_empty, all, Bytes, Option, none, some, ltb, ℤ, pos, negsuc,
}
use virtualchime.Text.{
  in_range, is_digit, c_str, scan_digits, long_max, strtol_digits, strtol_sign, skip_space, strtol,
  parse_long, parse_int, decimal, nat_to_string, to_string,
}

scan_digits-cons :
    (v c : ℕ) (cs : Bytes)
    → is_digit c ≡ true
    → scan_digits v (c ∷ cs) ≡ scan_digits (v * 10 + (c - b'0')) cs
unfolding scan_digits
scan_digits-cons v c cs h = ground arith

digit_lem : (n : ℕ) → is_digit (b'0' + n % 10) ≡ true
digit_lem n = ground arith

-- The digits written for `n` are read as `n`, whatever follows.
scan_digits-decimal :
    (fuel n : ℕ) (tail : Bytes)
    → n < fuel
    → scan_digits 0 (decimal fuel n tail) ≡ scan_digits n tail
unfolding decimal
scan_digits-decimal zero n tail h = absurd (omega arith)
scan_digits-decimal (suc fuel) n tail h = elim (Bool-cases (ltb n 10)) [
  | inl e ↦ rw e (
      scan_digits-cons 0 (b'0' + n % 10) tail (digit_lem n)
      ∙ ap (λ v. scan_digits v tail) (ground arith))
  | inr e ↦ rw e (
      scan_digits-decimal fuel (n / 10) ((b'0' + n % 10) ∷ tail) (ground arith)
      ∙ scan_digits-cons (n / 10) (b'0' + n % 10) tail (digit_lem n)
      ∙ ap (λ v. scan_digits v tail) (omega arith))
]

pub all-decimal :
    (fuel n : ℕ) (tail : Bytes)
    → all is_digit tail ≡ true
    → all is_digit (decimal fuel n tail) ≡ true
unfolding decimal
all-decimal zero n tail h = h
all-decimal (suc fuel) n tail h = elim (Bool-cases (ltb n 10)) [
  | inl e ↦ rw e (rw (digit_lem n) h)
  | inr e ↦ rw e (all-decimal fuel (n / 10) ((b'0' + n % 10) ∷ tail) (rw (digit_lem n) h))
]

is_empty-decimal : (fuel n d : ℕ) (tail : Bytes) → is_empty (decimal fuel n (d ∷ tail)) ≡ false
unfolding decimal
is_empty-decimal zero n d tail = refl
is_empty-decimal (suc fuel) n d tail =
    ground (arith, is_empty-decimal fuel (n / 10) (b'0' + n % 10) (d ∷ tail))

pub is_empty-nat_to_string : (n : ℕ) → is_empty (nat_to_string n) ≡ false
unfolding decimal
is_empty-nat_to_string n = ground (arith, is_empty-decimal n (n / 10) (b'0' + n % 10) [])

c_str_id : (s : Bytes) → all is_digit s ≡ true → c_str s ≡ s
unfolding c_str
c_str_id [] h = refl
c_str_id (c ∷ s) h = ground (arith, c_str_id s)

strtol_sign-digits :
    (s : Bytes)
    → all is_digit s ≡ true
    → is_empty s ≡ false
    → strtol_sign (skip_space s) ≡ strtol_digits false s
unfolding strtol_sign skip_space
strtol_sign-digits [] h f = cc
strtol_sign-digits (c ∷ s) h f = ground arith

strtol_digits-value :
    (s : Bytes) (n : ℕ)
    → all is_digit s ≡ true
    → is_empty s ≡ false
    → scan_digits 0 s ≡ (n, [])
    → n ≤ long_max
    → strtol_digits false s ≡ some (pos n, [])
unfolding strtol_digits
strtol_digits-value [] n h f e b = cc
strtol_digits-value (c ∷ s) n h f e b = ground arith

parse_long-digits :
    (s : Bytes) (n : ℕ)
    → all is_digit s ≡ true
    → is_empty s ≡ false
    → scan_digits 0 s ≡ (n, [])
    → n ≤ long_max
    → parse_long s ≡ some (pos n)
unfolding parse_long
parse_long-digits s n h f e b =
    rw (c_str_id s h, strtol, strtol_sign-digits s h f, strtol_digits-value s n h f e b)

-- `strtol` reads back what `std::to_string` wrote for a number that fits a `long`.
pub parse_long-to_string : (n : ℕ) → n ≤ long_max → parse_long (to_string (pos n)) ≡ some (pos n)
unfolding to_string
parse_long-to_string n h =
    parse_long-digits (nat_to_string n) n (all-decimal (suc n) n [] refl) (is_empty-nat_to_string n)
      (scan_digits-decimal (suc n) n [] (omega arith) ∙ unfold scan_digits in refl) h

-- For bounds that fit a `long`, `parse_int` reads back what `std::to_string` wrote for a number
-- between them that is not negative.
parse_int-to_string :
    (lo hi n : ℕ)
    → lo ≤ n
    → n ≤ hi
    → hi ≤ long_max
    → parse_int lo hi (to_string (pos n)) ≡ some (pos n)
unfolding parse_int
parse_int-to_string lo hi n a b c = ground (arith, parse_long-to_string n)

pub in_range_bounds :
    (lo hi : ℕ) (o : Option ℤ) (v : ℤ)
    → in_range lo hi o ≡ some v
    → (n : ℕ) × (v ≡ pos n) × (lo ≤ n) × (n ≤ hi)
in_range_bounds lo hi none v h = absurd (cc)
in_range_bounds lo hi (some (pos n)) v h = (n, ground arith, ground arith, ground arith)
in_range_bounds lo hi (some (negsuc n)) v h = absurd (cc)

-- What `parse_int` accepts lies in the range that it was given.
pub parse_int_bounds :
    (lo hi : ℕ) (s : Bytes) {v : ℤ}
    → parse_int lo hi s ≡ some v
    → (n : ℕ) × (v ≡ pos n) × (lo ≤ n) × (n ≤ hi)
unfolding parse_int
parse_int_bounds lo hi s {v} h = in_range_bounds lo hi (parse_long s) v h
