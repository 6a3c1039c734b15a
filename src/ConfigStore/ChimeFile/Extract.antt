-- ===== src/ConfigStore/ChimeFile/Extract.antt =====
-- What `ExtractConfigValue` finds in the lines that `SaveChimeConfig` writes.
use virtualchime.Base.{
  Bool, false, ◌||◌, [], ◌∷◌, ◌++◌, ◌≡◌, inl, inr, refl, ◌∙◌, arith, none, some, if◌then◌else◌,
  is_empty, Bytes, codes, contains, Bool-cases, Option-cases, bytes_eq, bytes_eq_iff, strip_prefix,
  strip_prefix-append, strip_prefix-eq-some, split_at, split_at-append, append_assoc,
}
use virtualchime.Text.{trim, trim_right}
use virtualchime.Text.Trim.{IsTrimmed, trim_id, trim_left_id, trim_right-append, trim-trim_right}
use virtualchime.KvConfig.{key_value, starts_with_hash}
use virtualchime.ConfigStore.ChimeFile.{line_value, assignment}

-- A key that a line can hold: not empty, no `=`, no blanks round it, and no comment sign.
pub record IsKey (k : Bytes) : Type 0 where
  pub filled : is_empty k ≡ false
  pub no_equals : contains b'=' k ≡ false
  pub trimmed : IsTrimmed k
  pub no_hash : starts_with_hash k ≡ false

abbrev skipped : Bytes → Bool
skipped t = is_empty t || starts_with_hash t

line_value_found :
    (k line w : Bytes)
    → line_value k line ≡ some w
    → (v : Bytes) × (skipped (trim line) ≡ false) × (trim line ≡ k ++ (b'=' ∷ v)) × (w ≡ trim v)
unfolding line_value
line_value_found k line w h = elim (Bool-cases (skipped (trim line))) [
  | inl e ↦ absurd (ground arith)
  | inr e ↦ elim (Option-cases (strip_prefix (k ++ codes "=") (trim line))) [
    | inl n ↦ absurd (ground arith)
    | inr (v, f) ↦ (
      v,
      e,
      strip_prefix-eq-some (k ++ codes "=") (trim line) v f ∙ append_assoc k (codes "=") v,
      ground arith,
    )
  ]
]

-- A line that begins with `key=`, blanks aside, has the key `key`.
pub line_value-key_value :
    (k line w : Bytes)
    → IsKey k
    → line_value k line ≡ some w
    → (v : Bytes) × (key_value line ≡ some (k, v))
unfolding key_value
line_value-key_value k line w i h =
    let (v, used, eq, found) = line_value_found k line w h in
    let parts : split_at b'=' (trim line) ≡ some (k, v) =
      rw eq (split_at-append b'=' k v i.no_equals) in
    (trim v, ground (arith, trim_id k i.trimmed))

trim-assignment : (k v : Bytes) → IsKey k → trim (assignment k v) ≡ k ++ (b'=' ∷ trim_right v)
unfolding trim
trim-assignment [] v i = absurd (cc (i.filled))
trim-assignment (c ∷ k) v i =
    rw (trim_left_id (c ∷ (k ++ (b'=' ∷ v))) i.trimmed.starts)
      (trim_right-append (c ∷ k) b'=' v refl)

not_skipped : (k v : Bytes) → IsKey k → skipped (k ++ v) ≡ false
not_skipped [] v i = absurd (cc (i.filled))
not_skipped (c ∷ k) v i = i.no_hash

strip_prefix_other :
    (k j v : Bytes)
    → contains b'=' k ≡ false
    → contains b'=' j ≡ false
    → bytes_eq k j ≡ false
    → strip_prefix (k ++ codes "=") (j ++ (b'=' ∷ v)) ≡ none
unfolding strip_prefix bytes_eq
strip_prefix_other [] [] v a b h = absurd (cc)
strip_prefix_other [] (d ∷ j) v a b h = ground arith
strip_prefix_other (c ∷ k) [] v a b h = ground arith
strip_prefix_other (c ∷ k) (d ∷ j) v a b h = ground (arith, strip_prefix_other k j v)

-- The line `j=v` gives `v`, trimmed, for the key `j`, and nothing for any other key.
pub line_value-assignment :
    (k j v : Bytes)
    → IsKey k
    → IsKey j
    → line_value k (assignment j v) ≡ (if bytes_eq k j then some (trim v) else none)
unfolding line_value
line_value-assignment k j v a b = elim (Bool-cases (bytes_eq k j)) [
  | inl e ↦
      let same = (bytes_eq_iff k j).0 e in
      let found : strip_prefix (k ++ codes "=") (j ++ (b'=' ∷ trim_right v)) ≡ some (trim_right v) =
        rw (← same, ← append_assoc k (codes "=") (trim_right v))
          (strip_prefix-append (k ++ codes "=") (trim_right v)) in
      rw (
        e,
        line_value,
        trim-assignment j v b,
        not_skipped j (b'=' ∷ trim_right v) b,
        found,
        trim-trim_right v,
      )
  | inr e ↦ rw (
    e,
    line_value,
    trim-assignment j v b,
    not_skipped j (b'=' ∷ trim_right v) b,
    strip_prefix_other k j (trim_right v) a.no_equals b.no_equals e,
  )
]
