-- ===== src/Text/Trim.antt =====
-- `trim`: what it cuts, and what it leaves alone.
use virtualchime.Base.{
  ℕ, Bool, true, false, ◌&&◌, [], ◌∷◌, ◌++◌, ◌≡◌, inl, inr, refl, sym, ◌∙◌, ap, arith,
  if◌then◌else◌, Bool-cases, is_empty, all, any, Bytes,
}
use virtualchime.Text.{is_blank, trim_left, trim_right, trim}

-- The first byte is not blank, if there is one.
abbrev pub StartsClean : Bytes → Type 0
StartsClean [] = Unit
StartsClean (c ∷ cs) = is_blank c ≡ false

-- The last byte is not blank, if there is one.
abbrev pub EndsClean : Bytes → Type 0
EndsClean [] = Unit
EndsClean (c ∷ []) = is_blank c ≡ false
EndsClean (c ∷ d ∷ cs) = EndsClean (d ∷ cs)

-- No blank at either end: what `trim` returns.
pub record IsTrimmed (s : Bytes) : Type 0 where
  pub starts : StartsClean s
  pub ends : EndsClean s

pub trim_left_id : (s : Bytes) → StartsClean s → trim_left s ≡ s
unfolding trim_left
trim_left_id [] h = refl
trim_left_id (c ∷ cs) h = ground arith

trim_right_id : (s : Bytes) → EndsClean s → trim_right s ≡ s
unfolding trim_right
trim_right_id [] h = refl
trim_right_id (c ∷ []) h = ground arith
trim_right_id (c ∷ d ∷ cs) h = ground (arith, trim_right_id (d ∷ cs) h)

pub trim_id : (s : Bytes) → IsTrimmed s → trim s ≡ s
unfolding trim
trim_id s h = rw (trim_left_id s h.starts) (trim_right_id s h.ends)

trim_left-StartsClean : (s : Bytes) → StartsClean (trim_left s)
unfolding trim_left
trim_left-StartsClean [] = tt
trim_left-StartsClean (c ∷ cs) = elim (Bool-cases (is_blank c)) [
  | inl e ↦ rw (e, trim_left) (trim_left-StartsClean cs)
  | inr e ↦ rw (e, trim_left) e
]

trim_right-EndsClean_step :
    (c : ℕ) (r : Bytes) → EndsClean r → EndsClean (if is_blank c && is_empty r then [] else c ∷ r)
trim_right-EndsClean_step c [] h = ground arith
trim_right-EndsClean_step c (d ∷ r) h = elim (Bool-cases (is_blank c)) [
  | inl e ↦ rw e h
  | inr e ↦ rw e h
]

trim_right-EndsClean : (s : Bytes) → EndsClean (trim_right s)
unfolding trim_right
trim_right-EndsClean [] = tt
trim_right-EndsClean (c ∷ cs) =
    trim_right-EndsClean_step c (trim_right cs) (trim_right-EndsClean cs)

trim_right-StartsClean : (s : Bytes) → StartsClean s → StartsClean (trim_right s)
unfolding trim_right
trim_right-StartsClean [] h = tt
trim_right-StartsClean (c ∷ cs) h = rw h h

pub trim-IsTrimmed : (s : Bytes) → IsTrimmed (trim s)
unfolding trim
trim-IsTrimmed s = record {
  starts = trim_right-StartsClean (trim_left s) (trim_left-StartsClean s);
  ends = trim_right-EndsClean (trim_left s);
}

-- Trimming a trimmed text changes nothing.
trim_idem : (s : Bytes) → trim (trim s) ≡ trim s
trim_idem s = trim_id (trim s) (trim-IsTrimmed s)

EndsClean-append : (a : Bytes) (c : ℕ) (b : Bytes) → EndsClean (c ∷ b) → EndsClean (a ++ (c ∷ b))
EndsClean-append [] c b h = h
EndsClean-append (d ∷ []) c b h = h
EndsClean-append (d ∷ e ∷ a) c b h = EndsClean-append (e ∷ a) c b h

-- A text that starts and ends with bytes that are not blank.
pub IsTrimmed-append :
    (c : ℕ) (a : Bytes) (d : ℕ) (b : Bytes)
    → is_blank c ≡ false
    → EndsClean (d ∷ b)
    → IsTrimmed (c ∷ (a ++ (d ∷ b)))
IsTrimmed-append c a d b h k = record { starts = h; ends = EndsClean-append (c ∷ a) d b k }

trim_left-append : (s t : Bytes) → all is_blank s ≡ true → trim_left (s ++ t) ≡ trim_left t
unfolding trim_left
trim_left-append [] t h = refl
trim_left-append (c ∷ s) t h = ground (arith, trim_left-append s t)

-- Blanks in front do not count.
pub trim-append : (s t : Bytes) → all is_blank s ≡ true → trim (s ++ t) ≡ trim t
unfolding trim
trim-append s t h = ap trim_right (trim_left-append s t h)

any-trim_left : (p : ℕ → Bool) (s : Bytes) → any p s ≡ false → any p (trim_left s) ≡ false
unfolding trim_left
any-trim_left p [] h = refl
any-trim_left p (c ∷ s) h = ground (arith, any-trim_left p s)

any-trim_right : (p : ℕ → Bool) (s : Bytes) → any p s ≡ false → any p (trim_right s) ≡ false
unfolding trim_right
any-trim_right p [] h = refl
any-trim_right p (c ∷ s) h = ground (arith, any-trim_right p s)

-- A byte that is not in the text is not in the trimmed text.
pub any-trim : (p : ℕ → Bool) (s : Bytes) → any p s ≡ false → any p (trim s) ≡ false
unfolding trim
any-trim p s h = any-trim_right p (trim_left s) (any-trim_left p s h)

-- What stands behind a byte that is not blank is trimmed on its own.
pub trim_right-append :
    (a : Bytes) (c : ℕ) (b : Bytes)
    → is_blank c ≡ false
    → trim_right (a ++ (c ∷ b)) ≡ a ++ (c ∷ trim_right b)
unfolding trim_right
trim_right-append [] c b h = rw h
trim_right-append (d ∷ []) c b h = ground arith
trim_right-append (d ∷ e ∷ a) c b h = ground (arith, trim_right-append (e ∷ a) c b h)

trim_right_idem : (s : Bytes) → trim_right (trim_right s) ≡ trim_right s
trim_right_idem s = trim_right_id (trim_right s) (trim_right-EndsClean s)

trim_blank : (c : ℕ) (s : Bytes) → is_blank c ≡ true → trim (c ∷ s) ≡ trim s
unfolding trim
trim_blank c s h = ap trim_right (trim_left-append (c ∷ []) s (rw h))

trim_filled : (c : ℕ) (s : Bytes) → is_blank c ≡ false → trim (c ∷ s) ≡ trim_right (c ∷ s)
unfolding trim
trim_filled c s h = ap trim_right (trim_left_id (c ∷ s) h)

trim_right_blank :
    (c : ℕ) (s : Bytes)
    → is_blank c ≡ true
    → trim_right (c ∷ s) ≡ (if is_empty (trim_right s) then [] else c ∷ trim_right s)
unfolding trim_right
trim_right_blank c s h = rw h

trim_right_filled : (c : ℕ) (s : Bytes) → is_blank c ≡ false → trim_right (c ∷ s) ≡ c ∷ trim_right s
unfolding trim_right
trim_right_filled c s h = rw h

trim-cons :
    (c : ℕ) (r : Bytes) → is_blank c ≡ true → trim (if is_empty r then [] else c ∷ r) ≡ trim r
trim-cons c [] h = refl
trim-cons c (d ∷ r) h = trim_blank c (d ∷ r) h

trim-trim_right_filled :
    (c : ℕ) (s : Bytes) → is_blank c ≡ false → trim (trim_right (c ∷ s)) ≡ trim (c ∷ s)
trim-trim_right_filled c s h =
    ap trim (trim_right_filled c s h)
    ∙ trim_filled c (trim_right s) h
    ∙ ap trim_right (sym (trim_right_filled c s h))
    ∙ trim_right_idem (c ∷ s)
    ∙ sym (trim_filled c s h)

-- Cutting the end first makes no difference.
pub trim-trim_right : (s : Bytes) → trim (trim_right s) ≡ trim s
trim-trim_right [] = unfold trim in refl
trim-trim_right (c ∷ s) = elim (Bool-cases (is_blank c)) [
  | inl e ↦
      ap trim (trim_right_blank c s e)
      ∙ trim-cons c (trim_right s) e
      ∙ trim-trim_right s
      ∙ sym (trim_blank c s e)
  | inr e ↦ trim-trim_right_filled c s e
]
