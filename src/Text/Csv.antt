-- ===== src/Text/Csv.antt =====
-- `split_csv` and `JoinCsv` undo one another on clean items.
use virtualchime.Base.{
  ℕ, zero, suc, ◌≤◌, false, List, [], ◌∷◌, ◌++◌, ◌≡◌, inl, inr, refl, ap, ◌∙◌, arith, Bool-cases,
  is_empty, Bytes, append-nil, contains, split_at, split_at-append, split_at-eq-some,
  split_at-eq-none, length, length-append, none, Option-cases,
}
use virtualchime.Text.{trim, push_token, csv_loop, split_csv, join_csv, join_tail}
use virtualchime.Text.Trim.{IsTrimmed, trim_id, trim-IsTrimmed, any-trim}

-- An entry that survives the trip through a comma separated list.
pub record IsItem (x : Bytes) : Type 0 where
  pub filled : is_empty x ≡ false
  pub no_comma : contains b',' x ≡ false
  pub trimmed : IsTrimmed x

pub data AllItems : List Bytes → Type 0 where
  nil : AllItems []
  cons : {x : Bytes} {xs : List Bytes} → IsItem x → AllItems xs → AllItems (x ∷ xs)

push_token_item : (x : Bytes) (r : List Bytes) → IsItem x → push_token x r ≡ x ∷ r
push_token_item x r h = rw (trim_id x h.trimmed, h.filled)

csv_loop_last :
    (fuel c : ℕ) (cs : Bytes)
    → contains b',' (c ∷ cs) ≡ false
    → csv_loop (suc fuel) (c ∷ cs) ≡ push_token (c ∷ cs) []
unfolding csv_loop
csv_loop_last fuel c cs h = rw (split_at-eq-none b',' (c ∷ cs) h, csv_loop)

csv_loop_more :
    (fuel c : ℕ) (cs rest : Bytes)
    → contains b',' (c ∷ cs) ≡ false
    → csv_loop (suc fuel) (c ∷ (cs ++ (b',' ∷ rest))) ≡ push_token (c ∷ cs) (csv_loop fuel rest)
unfolding csv_loop
csv_loop_more fuel c cs rest h = rw (split_at-append b',' (c ∷ cs) rest h, csv_loop)

csv_loop-join :
    (fuel : ℕ) (xs : List Bytes)
    → AllItems xs
    → length (join_csv xs) ≤ fuel
    → csv_loop fuel (join_csv xs) ≡ xs
csv_loop-join zero [] h f = unfold csv_loop in refl
csv_loop-join (suc fuel) [] h f = unfold csv_loop in refl
csv_loop-join fuel ([] ∷ xs) (AllItems.cons i h) f = absurd (unfold csv_loop in cc (i.filled))
csv_loop-join zero ((c ∷ cs) ∷ xs) h f = absurd (omega arith)
csv_loop-join (suc fuel) ((c ∷ cs) ∷ []) (AllItems.cons i h) f =
    rw append-nil (csv_loop_last fuel c cs i.no_comma ∙ push_token_item (c ∷ cs) [] i)
csv_loop-join (suc fuel) ((c ∷ cs) ∷ y ∷ ys) (AllItems.cons i h) f =
    csv_loop_more fuel c cs (y ++ join_tail (b',' ∷ []) ys) i.no_comma
    ∙ push_token_item (c ∷ cs) _ i
    ∙ ap (◌∷◌ (c ∷ cs)) (
        csv_loop-join fuel (y ∷ ys) h
          (omega (arith, length-append cs (b',' ∷ (y ++ join_tail (b',' ∷ []) ys)))))

-- A list of clean items, written with commas, is read back.
pub split_csv-join_csv : (xs : List Bytes) → AllItems xs → split_csv (join_csv xs) ≡ xs
unfolding split_csv
split_csv-join_csv xs h = csv_loop-join (length (join_csv xs)) xs h (omega arith)

push_token-AllItems :
    (token : Bytes) (r : List Bytes)
    → contains b',' token ≡ false
    → AllItems r
    → AllItems (push_token token r)
push_token-AllItems token r h rest = elim (Bool-cases (is_empty (trim token))) [
  | inl e ↦ rw e rest
  | inr e ↦ rw e (
      AllItems.cons
        (record { filled = e; no_comma = any-trim _ token h; trimmed = trim-IsTrimmed token }) rest)
]

split_at-none-contains : (sep : ℕ) (s : Bytes) → split_at sep s ≡ none → contains sep s ≡ false
unfolding split_at
split_at-none-contains sep [] h = refl
split_at-none-contains sep (c ∷ s) h = ground (arith, split_at-none-contains sep s)

csv_loop-AllItems : (fuel : ℕ) (s : Bytes) → AllItems (csv_loop fuel s)
unfolding csv_loop
csv_loop-AllItems zero s = AllItems.nil
csv_loop-AllItems (suc fuel) [] = AllItems.nil
csv_loop-AllItems (suc fuel) (c ∷ cs) = elim (Option-cases (split_at b',' (c ∷ cs))) [
  | inl e ↦
      rw (e, csv_loop)
        (push_token-AllItems (c ∷ cs) [] (split_at-none-contains b',' (c ∷ cs) e) AllItems.nil)
  | inr (r, e) ↦
      rw (e, csv_loop)
        (push_token-AllItems r.0 _ (split_at-eq-some b',' (c ∷ cs) r.0 r.1 e).1
          (csv_loop-AllItems fuel r.1))
]

-- Whatever text is split, the entries are clean items.
pub split_csv-AllItems : (s : Bytes) → AllItems (split_csv s)
unfolding split_csv
split_csv-AllItems s = csv_loop-AllItems (length s) s
