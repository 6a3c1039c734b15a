-- ===== src/KvConfig/Invariant.antt =====
-- Rules for the loader: a property that the setters keep holds of what is loaded, and a required
-- field has the property that its setter establishes.
use virtualchime.Base.{
  ℕ, zero, suc, Bool, true, false, ◌||◌, List, [], ◌∷◌, ◌≡◌, inl, inr, refl, arith, Bool-cases,
  Option, none, some, Option-cases, Bytes, bytes_eq, get_or, map,
}
use virtualchime.Text.{get_lines}
use virtualchime.KvConfig.{
  Field, loaded, key_value, set_field, set_line, read_lines, find_missing, load_state, load,
}

module _ {T : Type 0} where
  load_state-loaded :
      (fs : List (Field T)) (st : T × List Bool) (c : T)
      → load_state fs st ≡ loaded c
      → (find_missing fs st.1 ≡ none) × (st.0 ≡ c)
  load_state-loaded fs (d, seen) c h = elim (Option-cases (find_missing fs seen)) [
    | inl e ↦ ground arith
    | inr (key, e) ↦ ground arith
  ]

module _ {T : Type 0} (P : T → Type 0) where
  -- Every setter keeps `P`.
  abbrev pub Keeps : List (Field T) → Type 0
  Keeps [] = Unit
  Keeps (f ∷ fs) = ((c : T) (v : Bytes) → P c → P (f.setter c v).0) × Keeps fs

  set_field-keeps :
      (fs : List (Field T)) (key value : Bytes) (c : T) (seen : List Bool)
      → Keeps fs
      → P c
      → P (set_field fs key value c seen).0
  unfolding set_field
  set_field-keeps [] key value c seen k h = h
  set_field-keeps (f ∷ fs) key value c [] k h = h
  set_field-keeps (f ∷ fs) key value c (s ∷ seen) k h = elim (Bool-cases (bytes_eq key f.key)) [
    | inl e ↦ rw (e, set_field) (k.0 c value h)
    | inr e ↦ rw (e, set_field) (set_field-keeps fs key value c seen k.1 h)
  ]

  set_line-keeps :
      (fs : List (Field T)) (st : T × List Bool) (o : Option (Bytes × Bytes))
      → Keeps fs
      → P st.0
      → P (set_line fs st o).0
  set_line-keeps fs (c, seen) none k h = h
  set_line-keeps fs (c, seen) (some (key, value)) k h = set_field-keeps fs key value c seen k h

  read_lines-keeps :
      (fs : List (Field T)) (ls : List Bytes) (st : T × List Bool)
      → Keeps fs
      → P st.0
      → P (read_lines fs ls st).0
  unfolding read_lines
  read_lines-keeps fs [] st k h = h
  read_lines-keeps fs (l ∷ ls) st k h =
      read_lines-keeps fs ls (set_line fs st (key_value l)) k
        (set_line-keeps fs st (key_value l) k h)

  -- What is loaded has every property that the defaults have and the setters keep.
  pub load-keeps :
      (fs : List (Field T)) (defaults : T) (content : Option Bytes) {c : T}
      → Keeps fs
      → P defaults
      → load fs defaults content ≡ loaded c
      → P c
  unfolding load
  load-keeps fs defaults none k h e = absurd (cc)
  load-keeps fs defaults (some content) {c} k h e =
      let st = read_lines fs (get_lines content) (defaults, map (λ f. false) fs) in
      let same = (load_state-loaded fs st c e).1 in
      rw (← same) (read_lines-keeps fs (get_lines content) (defaults, map (λ f. false) fs) k h)

-- The `n`-th field is required, its setter establishes `P` where it returns true, and every setter
-- keeps `P`.
module _ {T : Type 0} (P : T → Type 0) where
  abbrev pub Sets : ℕ → List (Field T) → Type 0
  Sets n [] = ⊥
  Sets zero (f ∷ fs) =
      (f.required ≡ true)
      × ((c : T) (v : Bytes) → (f.setter c v).1 ≡ true → P (f.setter c v).0)
      × ((c : T) (v : Bytes) → P c → P (f.setter c v).0)
      × Keeps P fs
  Sets (suc n) (f ∷ fs) = ((c : T) (v : Bytes) → P c → P (f.setter c v).0) × Sets n fs

  -- A field that is marked has its property.
  abbrev Marked : ℕ → T × List Bool → Type 0
  Marked n st = get_or st.1 n false ≡ true → P st.0

  set_head-Marked :
      (f : Field T) (value : Bytes) (c : T) (s : Bool)
      → ((c : T) (v : Bytes) → (f.setter c v).1 ≡ true → P (f.setter c v).0)
      → ((c : T) (v : Bytes) → P c → P (f.setter c v).0)
      → (s ≡ true → P c)
      → ((f.setter c value).1 || s) ≡ true
      → P (f.setter c value).0
  set_head-Marked f value c s sets keeps old h = elim (Bool-cases (f.setter c value).1) [
    | inl ok ↦ sets c value ok
    | inr e ↦ keeps c value (old (ground arith))
  ]

  set_field-Marked :
      (n : ℕ) (fs : List (Field T)) (key value : Bytes) (c : T) (seen : List Bool)
      → Sets n fs
      → Marked n (c, seen)
      → Marked n (set_field fs key value c seen)
  unfolding set_field
  set_field-Marked n [] key value c seen k h = h
  set_field-Marked zero (f ∷ fs) key value c [] k h = h
  set_field-Marked (suc n) (f ∷ fs) key value c [] k h = h
  set_field-Marked zero (f ∷ fs) key value c (s ∷ seen) k h =
      elim (Bool-cases (bytes_eq key f.key)) [
        | inl e ↦ rw (e, set_field) (set_head-Marked f value c s k.1 k.2 h)
        | inr e ↦ rw (e, set_field) (λ m. set_field-keeps P fs key value c seen k.3 (h m))
      ]
  set_field-Marked (suc n) (f ∷ fs) key value c (s ∷ seen) k h =
      elim (Bool-cases (bytes_eq key f.key)) [
        | inl e ↦ rw (e, set_field) (λ m. k.0 c value (h m))
        | inr e ↦ rw (e, set_field) (set_field-Marked n fs key value c seen k.1 h)
      ]

  set_line-Marked :
      (n : ℕ) (fs : List (Field T)) (st : T × List Bool) (o : Option (Bytes × Bytes))
      → Sets n fs
      → Marked n st
      → Marked n (set_line fs st o)
  set_line-Marked n fs (c, seen) none k h = h
  set_line-Marked n fs (c, seen) (some (key, value)) k h =
      set_field-Marked n fs key value c seen k h

  read_lines-Marked :
      (n : ℕ) (fs : List (Field T)) (ls : List Bytes) (st : T × List Bool)
      → Sets n fs
      → Marked n st
      → Marked n (read_lines fs ls st)
  unfolding read_lines
  read_lines-Marked n fs [] st k h = h
  read_lines-Marked n fs (l ∷ ls) st k h =
      read_lines-Marked n fs ls (set_line fs st (key_value l)) k
        (set_line-Marked n fs st (key_value l) k h)

  find_missing-none :
      (n : ℕ) (fs : List (Field T)) (seen : List Bool)
      → Sets n fs
      → find_missing fs seen ≡ none
      → get_or seen n false ≡ true
  unfolding find_missing
  find_missing-none n [] seen k h = absurd k
  find_missing-none zero (f ∷ fs) [] k h = ground (arith, k.0)
  find_missing-none (suc n) (f ∷ fs) [] k h = find_missing-none n fs [] k.1 (ground arith)
  find_missing-none zero (f ∷ fs) (s ∷ seen) k h = ground (arith, k.0)
  find_missing-none (suc n) (f ∷ fs) (s ∷ seen) k h = find_missing-none n fs seen k.1 (ground arith)

  unmarked : (n : ℕ) (fs : List (Field T)) → get_or (map (λ f. false) fs) n false ≡ false
  unmarked n [] = refl
  unmarked zero (f ∷ fs) = refl
  unmarked (suc n) (f ∷ fs) = unmarked n fs

  -- If loading succeeds, a required field has the property that its setter establishes.
  pub load-sets :
      (n : ℕ) (fs : List (Field T)) (defaults : T) (content : Option Bytes) {c : T}
      → Sets n fs
      → load fs defaults content ≡ loaded c
      → P c
  unfolding load
  load-sets n fs defaults none k e = absurd (cc)
  load-sets n fs defaults (some content) {c} k e =
      let st = read_lines fs (get_lines content) (defaults, map (λ f. false) fs) in
      let (found, same) = load_state-loaded fs st c e in
      rw (← same) (
        read_lines-Marked n fs (get_lines content) (defaults, map (λ f. false) fs) k
          (λ m. absurd (cc (unmarked n fs))) (find_missing-none n fs st.1 k found))
