-- ===== src/Base/Strings.antt =====
-- `std::string` as the list of its bytes: literals, equality, prefixes and searches.
use Prim.Native.Nat.{ℕ}
use Prim.Native.Char.{code}
use Prim.Native.String.{String}
use mathlib.Core.Path.{◌≡◌, refl}
use mathlib.Core.Logic.{◌↔◌}
use mathlib.Core.Bool.{Bool, true, false, not, ◌&&◌, ◌||◌}
use mathlib.Core.List.{List, [], ◌∷◌, ◌++◌}
use mathlib.Core.Option.{Option, none, some}
use native.Mathlib.Omega.{arith}
use virtualchime.Base.Tests.{◌==◌, if◌then◌else◌}
use virtualchime.Base.Lists.{any, any-append}

abbrev pub Bytes : Type 0
Bytes = List ℕ

-- The bytes of an ASCII literal.
abbrev pub codes : String → Bytes
codes String.[] = []
codes (String.◌∷◌ c s) = code c ∷ codes s

-- `a == b` on strings.
unfoldable pub bytes_eq : Bytes → Bytes → Bool
bytes_eq [] [] = true
bytes_eq (x ∷ xs) (y ∷ ys) = x == y && bytes_eq xs ys
bytes_eq _ _ = false

pub bytes_eq_iff : (a b : Bytes) → (bytes_eq a b ≡ true) ↔ (a ≡ b)
unfolding bytes_eq
bytes_eq_iff (x ∷ a) (y ∷ b) = ground (arith, bytes_eq_iff a b)
bytes_eq_iff _ _ = ground arith

pub bytes_eq_refl : (a : Bytes) → bytes_eq a a ≡ true
bytes_eq_refl a = (bytes_eq_iff a a).1 refl

-- `s.rfind(prefix, 0) == 0`, and `s.substr(prefix.size())` if so.
unfoldable pub strip_prefix : Bytes → Bytes → Option Bytes
strip_prefix [] s = some s
strip_prefix (p ∷ ps) [] = none
strip_prefix (p ∷ ps) (c ∷ cs) = let rest = strip_prefix ps cs in if p == c then rest else none

abbrev pub is_some {ℓ} : {A : Type ℓ} → Option A → Bool
is_some none = false
is_some (some a) = true

unfoldable pub starts_with : Bytes → Bytes → Bool
unfolding strip_prefix
starts_with p s = is_some (strip_prefix p s)

pub strip_prefix-append : (p s : Bytes) → strip_prefix p (p ++ s) ≡ some s
unfolding strip_prefix
strip_prefix-append [] s = refl
strip_prefix-append (c ∷ p) s = ground (arith, strip_prefix-append p s)

pub strip_prefix-eq-some : (p s t : Bytes) → strip_prefix p s ≡ some t → s ≡ p ++ t
unfolding strip_prefix
strip_prefix-eq-some [] s t h = ground arith
strip_prefix-eq-some (c ∷ p) [] t h = ground arith
strip_prefix-eq-some (c ∷ p) (d ∷ s) t h = ground (arith, strip_prefix-eq-some p s t)

-- `s.find(c) != npos`.
abbrev pub contains : ℕ → Bytes → Bool
contains c s = any (λ d. d == c) s

-- `s.find(needle) != npos`.
unfoldable pub contains_bytes : Bytes → Bytes → Bool
unfolding starts_with
contains_bytes needle [] = starts_with needle []
contains_bytes needle (c ∷ cs) = starts_with needle (c ∷ cs) || contains_bytes needle cs

-- `pos = s.find(c)`; the parts `s.substr(0, pos)` and `s.substr(pos + 1)`, none for `npos`.
unfoldable pub split_at : ℕ → Bytes → Option (Bytes × Bytes)
split_at sep [] = none
split_at sep (c ∷ cs) = elim (c == sep) [
  | true ↦ some ([], cs)
  | false ↦ elim (split_at sep cs) [ none ↦ none | some (a, b) ↦ some (c ∷ a, b) ]
]

pub split_at-append :
    (sep : ℕ) (a b : Bytes) → contains sep a ≡ false → split_at sep (a ++ (sep ∷ b)) ≡ some (a, b)
unfolding split_at
split_at-append sep [] b h = ground arith
split_at-append sep (c ∷ a) b h = ground (arith, split_at-append sep a b)

pub split_at-eq-some :
    (sep : ℕ) (s a b : Bytes)
    → split_at sep s ≡ some (a, b)
    → (s ≡ a ++ (sep ∷ b)) × (contains sep a ≡ false)
unfolding split_at
split_at-eq-some sep [] a b h = ground arith
split_at-eq-some sep (c ∷ s) [] b h = ground arith
split_at-eq-some sep (c ∷ s) (d ∷ a) b h = ground (arith, split_at-eq-some sep s a b)

pub split_at-eq-none : (sep : ℕ) (s : Bytes) → contains sep s ≡ false → split_at sep s ≡ none
unfolding split_at
split_at-eq-none sep [] h = refl
split_at-eq-none sep (c ∷ s) h = ground (arith, split_at-eq-none sep s)

-- `std::set` and `std::unordered_set` of strings, as lists: `contains`, and `erase`.
unfoldable pub member : Bytes → List Bytes → Bool
member x ys = any (bytes_eq x) ys

unfoldable pub erase : Bytes → List Bytes → List Bytes
erase x [] = []
erase x (y ∷ ys) = if bytes_eq x y then erase x ys else y ∷ erase x ys

unfoldable pub nodup : List Bytes → Bool
unfolding member
nodup [] = true
nodup (x ∷ xs) = not (member x xs) && nodup xs

pub member-append :
    (x : Bytes) (ys zs : List Bytes) → member x (ys ++ zs) ≡ (member x ys || member x zs)
unfolding member
member-append x ys zs = any-append (bytes_eq x) ys zs

pub bytes_eq_sym : (a b : Bytes) → bytes_eq a b ≡ bytes_eq b a
unfolding bytes_eq
bytes_eq_sym (x ∷ a) (y ∷ b) = ground (arith, bytes_eq_sym a b)
bytes_eq_sym [] [] = refl
bytes_eq_sym [] (y ∷ b) = refl
bytes_eq_sym (x ∷ a) [] = refl

pub member-erase :
    (x y : Bytes) (ys : List Bytes) → member x (erase y ys) ≡ (member x ys && not (bytes_eq x y))
unfolding member erase
member-erase x y [] = refl
member-erase x y (z ∷ zs) =
    ground (arith, member-erase x y zs, bytes_eq_iff y z, bytes_eq_iff x z, bytes_eq_iff x y)

pub nodup-concat :
    (xs : List Bytes) (t : Bytes)
    → nodup xs ≡ true
    → member t xs ≡ false
    → nodup (xs ++ t ∷ []) ≡ true
unfolding nodup
nodup-concat [] t h k = refl
nodup-concat (x ∷ xs) t h k =
    ground (arith, nodup-concat xs t, any-append (bytes_eq x) xs (t ∷ []), bytes_eq_sym x t)
