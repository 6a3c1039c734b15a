-- ===== src/ChimeConfig/Parsed.antt =====
-- What the setters of common/include/vc/config/kv_config.h assign.
use virtualchime.Base.{
  Bool, Bool-cases, inl, inr, ℕ, ◌≤◌, true, Option, none, some, ◌≡◌, refl, arith, Bytes, ℤ, pos,
}
use virtualchime.Text.{strtol, c_str}
use virtualchime.Text.Number.{in_range_bounds}
use virtualchime.ChimeConfig.{ChimeConfig, set_parsed, parse_int_field}

abbrev pub InRange : ℕ → ℕ → ℤ → Type 0
InRange lo hi v = (n : ℕ) × (v ≡ pos n) × (lo ≤ n) × (n ≤ hi)

module _ (P : ChimeConfig → Type 0) where
  pub parsed_keeps :
      {A : Type 0} (assign : ChimeConfig → A → ChimeConfig) (c : ChimeConfig) (o : Option A)
      → P c
      → ((a : A) → o ≡ some a → P (assign c a))
      → P (set_parsed assign c o).0
  parsed_keeps assign c none h k = h
  parsed_keeps assign c (some a) h k = k a refl

  pub parsed_sets :
      {A : Type 0} (assign : ChimeConfig → A → ChimeConfig) (c : ChimeConfig) (o : Option A)
      → ((a : A) → o ≡ some a → P (assign c a))
      → (set_parsed assign c o).1 ≡ true
      → P (set_parsed assign c o).0
  parsed_sets assign c none k h = absurd (cc h)
  parsed_sets assign c (some a) k h = k a refl

pub parse_int_field_bounds :
    (z : Bytes → Bool) (lo hi : ℕ) (v : Bytes) (a : ℤ)
    → parse_int_field z lo hi v ≡ some a
    → InRange lo hi a
unfolding parse_int_field
parse_int_field_bounds z lo hi v a h = elim (Bool-cases (z v)) [
  | inl e ↦ in_range_bounds lo hi (some ((strtol (c_str v)).0)) a (rw e at h)
  | inr e ↦ absurd (ground (arith, e, h))
]
