-- ===== src/ConfigStore/ChimeFile/Update.antt =====
-- After `SaveChimeConfig` rewrote the lines, `ExtractConfigValue` finds the new value of each key.
use virtualchime.Base.{
  Bool, true, false, ◌||◌, List, [], ◌∷◌, ◌++◌, ◌≡◌, ◌⊎◌, inl, inr, refl, ap, ◌∙◌, arith, Option,
  none, some, if◌then◌else◌, any, is_some, Bytes, Bool-cases, Option-cases, any-append, bytes_eq,
  bytes_eq_iff, member,
}
use virtualchime.Text.{trim}
use virtualchime.KvConfig.{key_value}
use virtualchime.ConfigStore.ChimeFile.{
  line_value, extract_loop, extract_config_value, Replacements, find, replaced, replacement,
  assignment, rewrite_lines, missing_lines, update_lines,
}
use virtualchime.ConfigStore.ChimeFile.Extract.{IsKey, line_value-key_value, line_value-assignment}

abbrev keys : Replacements → List Bytes
keys [] = []
keys ((k, v) ∷ r) = k ∷ keys r

-- The keys of a `std::map`: clean, and no two alike.
pub data AreKeys : Replacements → Type 0 where
  nil : AreKeys []
  cons :
      {k v : Bytes} {r : Replacements}
      → IsKey k
      → member k (keys r) ≡ false
      → AreKeys r
      → AreKeys ((k, v) ∷ r)

-- Every line gives `w` for the key, or nothing.
data Only (k w : Bytes) : List Bytes → Type 0 where
  nil : Only k w []
  cons :
      {l : Bytes} {ls : List Bytes}
      → (line_value k l ≡ none) ⊎ (line_value k l ≡ some w)
      → Only k w ls
      → Only k w (l ∷ ls)

Only-append :
    {k w : Bytes} {xs : List Bytes} (ys : List Bytes)
    → Only k w xs
    → Only k w ys
    → Only k w (xs ++ ys)
Only-append ys nil h = h
Only-append ys (cons o r) h = Only.cons o (Only-append ys r h)

-- Some line gives a value for the key.
abbrev hit : Bytes → List Bytes → Bool
hit k ls = any (λ l. is_some (line_value k l)) ls

extract_loop-Only :
    {k w : Bytes} {ls : List Bytes} (output : Bytes)
    → Only k w ls
    → extract_loop k output ls ≡ (if hit k ls then w else output)
unfolding extract_loop
extract_loop-Only output nil = refl
extract_loop-Only {k} {w} output (cons {l} {ls} (inl e) r) =
    rw (e, extract_loop) (extract_loop-Only output r)
extract_loop-Only {k} {w} output (cons {l} {ls} (inr e) r) =
    rw (e, extract_loop) (extract_loop-Only w r ∙ same (hit k ls))
  where
    same : (b : Bool) → (if b then w else w) ≡ w
    same true = refl
    same false = refl

find-IsKey : {r : Replacements} (k : Bytes) (w : Bytes) → AreKeys r → find k r ≡ some w → IsKey k
unfolding find
find-IsKey k w nil h = absurd (cc)
find-IsKey k w (cons {k = j} {v} {r} i n a) h = elim (Bool-cases (bytes_eq k j)) [
  | inl e ↦ rw ((bytes_eq_iff k j).0 e) i
  | inr e ↦ find-IsKey k w a (ground arith)
]

-- One rewritten line.
abbrev rewritten : Bytes → Option (Bytes × Bytes) → Bytes
rewritten line none = line
rewritten line (some (key, value)) = assignment key value

replaced-some :
    (r : Replacements) (o : Option (Bytes × Bytes)) (k w : Bytes)
    → replaced r o ≡ some (k, w)
    → find k r ≡ some w
replaced-some r none k w h = absurd (cc)
replaced-some r (some (j, old)) k w h = elim (Option-cases (find j r)) [
  | inl e ↦ absurd (ground arith)
  | inr (v, e) ↦ ground arith
]

replacement-found :
    (r : Replacements) (line k v w : Bytes)
    → key_value line ≡ some (k, v)
    → find k r ≡ some w
    → replacement r line ≡ some (k, w)
unfolding replacement
replacement-found r line k v w h f = rw (h, replaced, f)

-- Whether the rewritten line is one for the key `k`.
abbrev for_key : Bytes → Option (Bytes × Bytes) → Bool
for_key k none = false
for_key k (some (j, v)) = bytes_eq k j

abbrev marked : Option (Bytes × Bytes) → List Bytes → List Bytes
marked none seen = seen
marked (some (j, v)) seen = j ∷ seen

rewrite_lines-cons :
    (r : Replacements) (l : Bytes) (ls : List Bytes) (o : Option (Bytes × Bytes))
    → replacement r l ≡ o
    → rewrite_lines r (l ∷ ls)
      ≡ (rewritten l o ∷ (rewrite_lines r ls).0, marked o (rewrite_lines r ls).1)
unfolding rewrite_lines
rewrite_lines-cons r l ls none e = rw (e, rewrite_lines)
rewrite_lines-cons r l ls (some (j, v)) e = rw (e, rewrite_lines)

module _ (r : Replacements) (k w : Bytes) (a : AreKeys r) (f : find k r ≡ some w) where
  -- A rewritten line gives the new value if it is one for the key, and nothing otherwise.
  rewritten_value :
      (line : Bytes) (o : Option (Bytes × Bytes))
      → replacement r line ≡ o
      → line_value k (rewritten line o) ≡ (if for_key k o then some (trim w) else none)
  rewritten_value line none e = elim (Option-cases (line_value k line)) [
    | inl n ↦ n
    | inr (u, s) ↦
        let (v, kv) = line_value-key_value k line u (find-IsKey k w a f) s in
        absurd (cc (replacement-found r line k v w kv f))
  ]
  rewritten_value line (some (j, x)) e =
      let found = replaced-some r (key_value line) j x (unfold replacement in e) in
      line_value-assignment k j x (find-IsKey k w a f) (find-IsKey j x a found)
      ∙ ground (arith, bytes_eq_iff k j)

  value_cases :
      (line : Bytes) (b : Bool)
      → line_value k line ≡ (if b then some (trim w) else none)
      → (line_value k line ≡ none) ⊎ (line_value k line ≡ some (trim w))
  value_cases line true e = inr e
  value_cases line false e = inl e

  rewrite_lines-Only : (ls : List Bytes) → Only k (trim w) (rewrite_lines r ls).0
  rewrite_lines-Only [] = unfold rewrite_lines in Only.nil
  rewrite_lines-Only (l ∷ ls) =
      let o = replacement r l in
      rw (rewrite_lines-cons r l ls o refl) (
        Only.cons (value_cases (rewritten l o) (for_key k o) (rewritten_value l o refl))
          (rewrite_lines-Only ls))

  hit_step :
      (l : Bytes) (o : Option (Bytes × Bytes)) (seen : List Bytes) (b : Bool)
      → line_value k (rewritten l o) ≡ (if for_key k o then some (trim w) else none)
      → b ≡ member k seen
      → (is_some (line_value k (rewritten l o)) || b) ≡ member k (marked o seen)
  unfolding member
  hit_step l none seen b e h = rw e h
  hit_step l (some (j, v)) seen b e h = ground arith

  hit-rewrite_lines :
      (ls : List Bytes) → hit k (rewrite_lines r ls).0 ≡ member k (rewrite_lines r ls).1
  hit-rewrite_lines [] = unfold rewrite_lines member in refl
  hit-rewrite_lines (l ∷ ls) =
      let o = replacement r l in
      rw (rewrite_lines-cons r l ls o refl) (
        hit_step l o (rewrite_lines r ls).1 (hit k (rewrite_lines r ls).0)
          (rewritten_value l o refl) (hit-rewrite_lines ls))

find-member : (r : Replacements) (k : Bytes) → member k (keys r) ≡ false → find k r ≡ none
unfolding find member
find-member [] k h = refl
find-member ((j, v) ∷ r) k h = ground (arith, find-member r k)

module _ (k : Bytes) (i : IsKey k) (seen : List Bytes) where
  -- The lines that are appended for other keys give nothing.
  missing_lines-other :
      (w : Bytes) {r : Replacements}
      → AreKeys r
      → member k (keys r) ≡ false
      → Only k w (missing_lines seen r)
  unfolding missing_lines member
  missing_lines-other w nil h = Only.nil
  missing_lines-other w (cons {k = j} {v} {r} ij n a) h = elim (Bool-cases (member j seen)) [
    | inl e ↦ rw (e, missing_lines) (missing_lines-other w a (ground arith))
    | inr e ↦
        rw (e, missing_lines)
          (Only.cons (inl (line_value-assignment k j v i ij ∙ ground arith))
            (missing_lines-other w a (ground arith)))
  ]

  missing_lines-cons :
      (u j v : Bytes) (r : Replacements)
      → IsKey j
      → (bytes_eq k j ≡ true → trim v ≡ u)
      → Only k u (missing_lines seen r)
      → Only k u (missing_lines seen ((j, v) ∷ r))
  unfolding missing_lines
  missing_lines-cons u j v r ij same rest = elim (Bool-cases (member j seen)) [
    | inl e ↦ rw (e, missing_lines) rest
    | inr e ↦
        rw (e, missing_lines)
          (elim (Bool-cases (bytes_eq k j)) [
            | inl b ↦
                Only.cons (inr (line_value-assignment k j v i ij ∙ ground (arith, same b))) rest
            | inr b ↦ Only.cons (inl (line_value-assignment k j v i ij ∙ rw b)) rest
          ])
  ]

  missing_lines-Only :
      (w : Bytes) {r : Replacements}
      → AreKeys r
      → find k r ≡ some w
      → Only k (trim w) (missing_lines seen r)
  unfolding find
  missing_lines-Only w nil h = absurd (cc)
  missing_lines-Only w (cons {k = j} {v} {r} ij n a) h = elim (Bool-cases (bytes_eq k j)) [
    | inl b ↦
        let new : member k (keys r) ≡ false = rw ((bytes_eq_iff k j).0 b) n in
        let same : v ≡ w = ground arith in
        missing_lines-cons (trim w) j v r ij (λ e. ap trim same)
          (missing_lines-other (trim w) a new)
    | inr b ↦
        missing_lines-cons (trim w) j v r ij (λ e. absurd (cc))
          (missing_lines-Only w a (ground arith))
  ]

  hit-missing_lines :
      (w : Bytes) {r : Replacements}
      → AreKeys r
      → find k r ≡ some w
      → member k seen ≡ false
      → hit k (missing_lines seen r) ≡ true
  unfolding missing_lines find
  hit-missing_lines w nil h s = absurd (cc)
  hit-missing_lines w (cons {k = j} {v} {r} ij n a) h s = elim (Bool-cases (bytes_eq k j)) [
    | inl b ↦
        let absent : member j seen ≡ false = rw (← (bytes_eq_iff k j).0 b) s in
        rw (absent, missing_lines) (rw (line_value-assignment k j v i ij, b))
    | inr b ↦
        let later = hit-missing_lines w a (ground arith) s in
        elim (Bool-cases (member j seen)) [
          | inl e ↦ rw (e, missing_lines) later
          | inr e ↦ rw (e, missing_lines) (rw (line_value-assignment k j v i ij, b, later))
        ]
  ]

-- For a map with clean and distinct keys: whatever the lines were, the rewritten lines give for
-- each key of the map its value, trimmed.
pub extract-update_lines :
    (r : Replacements) (k w : Bytes) (lines : List Bytes)
    → AreKeys r
    → find k r ≡ some w
    → extract_config_value (update_lines r lines) k ≡ trim w
unfolding extract_config_value update_lines
extract-update_lines r k w lines a f =
    let (rest, seen) = rewrite_lines r lines in
    let i = find-IsKey k w a f in
    let all_same =
      Only-append (missing_lines seen r) (rewrite_lines-Only r k w a f lines)
        (missing_lines-Only k i seen w a f) in
    let first = hit-rewrite_lines r k w a f lines in
    let some_hit : hit k (rest ++ missing_lines seen r) ≡ true =
      any-append (λ l. is_some (line_value k l)) rest (missing_lines seen r)
      ∙ elim (Bool-cases (member k seen)) [
        | inl e ↦ rw (first, e)
        | inr e ↦ rw (first, e) (hit-missing_lines k i seen w a f e)
      ] in
    extract_loop-Only [] all_same ∙ rw some_hit
