-- ===== src/Json/Quoted.antt =====
-- `ParseString` on what `JsonString` of chime/src/webd/json.cpp wrote.
use virtualchime.Base.{
  ℕ, zero, suc, ◌≤◌, ◌==◌, true, false, not, ◌&&◌, ◌||◌, [], ◌∷◌, ◌++◌, ◌≡◌, inl, inr, refl, ap,
  ◌∙◌, arith, if◌then◌else◌, ltb, length, length-append, append-nil, append_assoc, Bytes,
  Bool-cases,
}
use virtualchime.Json.{ok, read_escape, string_loop, parse_string, json_escape, json_string}

-- What a byte is read back as: a control byte without an escape of its own is written as '?'.
abbrev pub cleaned_byte : ℕ → ℕ
cleaned_byte c =
    if ltb c 32 && not ((c == 8) || ((c == 9) || ((c == 10) || ((c == 12) || (c == 13)))))
    then b'?'
    else c

unfoldable pub cleaned : Bytes → Bytes
cleaned [] = []
cleaned (c ∷ cs) = cleaned_byte c ∷ cleaned cs

equal : (c d : ℕ) → (c == d) ≡ true → c ≡ d
equal c d h = ground (arith, h)

module _ (fuel : ℕ) (out cs rest : Bytes) where
  -- One byte of the text goes through the loop in one round.
  abbrev OneRound : ℕ → Type 0
  OneRound c =
      string_loop (suc fuel) out (json_escape (c ∷ cs) ++ rest)
      ≡ string_loop fuel (out ++ cleaned_byte c ∷ []) (json_escape cs ++ rest)

  round_34 : OneRound 34
  unfolding string_loop json_escape read_escape
  round_34 = refl

  round_92 : OneRound 92
  unfolding string_loop json_escape read_escape
  round_92 = refl

  round_8 : OneRound 8
  unfolding string_loop json_escape read_escape
  round_8 = refl

  round_12 : OneRound 12
  unfolding string_loop json_escape read_escape
  round_12 = refl

  round_10 : OneRound 10
  unfolding string_loop json_escape read_escape
  round_10 = refl

  round_13 : OneRound 13
  unfolding string_loop json_escape read_escape
  round_13 = refl

  round_9 : OneRound 9
  unfolding string_loop json_escape read_escape
  round_9 = refl

  plain_round :
      (x : ℕ) (t : Bytes)
      → (x == 34) ≡ false
      → (x == 92) ≡ false
      → ltb x 32 ≡ false
      → string_loop (suc fuel) out (x ∷ t) ≡ string_loop fuel (out ++ x ∷ []) t
  unfolding string_loop
  plain_round x t a b h = rw (a, b, h, string_loop) refl

  round_other :
      (c : ℕ)
      → (c == 34) ≡ false
      → (c == 92) ≡ false
      → (c == 8) ≡ false
      → (c == 12) ≡ false
      → (c == 10) ≡ false
      → (c == 13) ≡ false
      → (c == 9) ≡ false
      → OneRound c
  unfolding json_escape
  round_other c a b d e f g h = elim (Bool-cases (ltb c 32)) [
    | inl low ↦
        simp (a, b, d, e, f, g, h, low) (plain_round b'?' (json_escape cs ++ rest) refl refl refl)
    | inr high ↦ simp (a, b, d, e, f, g, h, high) (plain_round c (json_escape cs ++ rest) a b high)
  ]

  string_loop-byte : (c : ℕ) → OneRound c
  string_loop-byte c = elim (Bool-cases (c == 34)) [
    | inl a ↦ rw (equal c 34 a) round_34
    | inr a ↦ elim (Bool-cases (c == 92)) [
      | inl b ↦ rw (equal c 92 b) round_92
      | inr b ↦ elim (Bool-cases (c == 8)) [
        | inl d ↦ rw (equal c 8 d) round_8
        | inr d ↦ elim (Bool-cases (c == 12)) [
          | inl e ↦ rw (equal c 12 e) round_12
          | inr e ↦ elim (Bool-cases (c == 10)) [
            | inl f ↦ rw (equal c 10 f) round_10
            | inr f ↦ elim (Bool-cases (c == 13)) [
              | inl g ↦ rw (equal c 13 g) round_13
              | inr g ↦ elim (Bool-cases (c == 9)) [
                | inl h ↦ rw (equal c 9 h) round_9
                | inr h ↦ round_other c a b d e f g h
              ]
            ]
          ]
        ]
      ]
    ]
  ]

string_loop-json_escape :
    (s : Bytes) (fuel : ℕ) (out rest : Bytes)
    → suc (length s) ≤ fuel
    → string_loop fuel out (json_escape s ++ b'"' ∷ rest) ≡ ok (out ++ cleaned s) rest
unfolding cleaned
string_loop-json_escape s zero out rest h = absurd (omega arith)
string_loop-json_escape [] (suc fuel) out rest h =
    unfold string_loop in unfold json_escape in rw append-nil refl
string_loop-json_escape (c ∷ cs) (suc fuel) out rest h =
    string_loop-byte fuel out cs (b'"' ∷ rest) c
    ∙ string_loop-json_escape cs fuel (out ++ cleaned_byte c ∷ []) rest (omega arith)
    ∙ ap (λ x. ok x rest) (append_assoc out (cleaned_byte c ∷ []) (cleaned cs))

length-json_escape : (s : Bytes) → length s ≤ length (json_escape s)
unfolding json_escape
length-json_escape [] = omega arith
length-json_escape (c ∷ cs) = ground (arith, length-json_escape cs)

-- `ParseString` reads what `JsonString` wrote, whatever follows it: the text itself but for the
-- control bytes that have no escape of their own, which become question marks.
pub parse_string-json_string :
    (s rest : Bytes) → parse_string (json_string s ++ rest) ≡ ok (cleaned s) rest
unfolding parse_string json_string
parse_string-json_string s rest =
    let long : suc (length s) ≤ length (json_escape s ++ b'"' ∷ rest) =
      omega (arith, length-json_escape s, length-append (json_escape s) (b'"' ∷ rest)) in
    rw (append_assoc (json_escape s) (b'"' ∷ []) rest)
      (string_loop-json_escape s (length (json_escape s ++ b'"' ∷ rest)) [] rest long)
