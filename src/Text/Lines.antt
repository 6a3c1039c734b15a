-- ===== src/Text/Lines.antt =====
-- Reading lines back: `std::getline` undoes the writing of lines that hold no newline.
use virtualchime.Base.{
  ℕ, zero, suc, ◌≤◌, Bool, true, not, List, [], ◌∷◌, ◌++◌, ◌≡◌, refl, ap, ◌∙◌, arith, all, Bytes,
  inl, inr, contains, split_at, split_at-append, split_at-eq-some, length, length-append, none,
  Option-cases,
}
use virtualchime.Text.{lines_loop, get_lines, unlines}

-- A text without a newline in it.
abbrev pub is_line : Bytes → Bool
is_line s = not (contains b'\n' s)

lines_loop_more :
    (fuel : ℕ) (line rest : Bytes)
    → is_line line ≡ true
    → lines_loop (suc fuel) (line ++ (b'\n' ∷ rest)) ≡ line ∷ lines_loop fuel rest
unfolding lines_loop split_at
lines_loop_more fuel [] rest h = refl
lines_loop_more fuel (c ∷ cs) rest h =
    rw (split_at-append b'\n' (c ∷ cs) rest (ground arith), lines_loop)

lines_loop-unlines :
    (fuel : ℕ) (ls : List Bytes)
    → all is_line ls ≡ true
    → length (unlines ls) ≤ fuel
    → lines_loop fuel (unlines ls) ≡ ls
lines_loop-unlines zero [] h f = unfold lines_loop in refl
lines_loop-unlines (suc fuel) [] h f = unfold lines_loop in refl
lines_loop-unlines zero (l ∷ ls) h f = absurd (omega (arith, length-append l (b'\n' ∷ unlines ls)))
lines_loop-unlines (suc fuel) (l ∷ ls) h f =
    lines_loop_more fuel l (unlines ls) (ground arith)
    ∙ ap (◌∷◌ l) (
        lines_loop-unlines fuel ls (ground arith)
          (omega (arith, length-append l (b'\n' ∷ unlines ls))))

-- Lines without newlines that were written are read back.
pub get_lines-unlines : (ls : List Bytes) → all is_line ls ≡ true → get_lines (unlines ls) ≡ ls
unfolding get_lines
get_lines-unlines ls h = lines_loop-unlines (length (unlines ls)) ls h (omega arith)

split_at-none-contains : (s : Bytes) → split_at b'\n' s ≡ none → is_line s ≡ true
unfolding split_at
split_at-none-contains [] h = refl
split_at-none-contains (c ∷ s) h = ground (arith, split_at-none-contains s)

all-is_line-lines_loop : (fuel : ℕ) (s : Bytes) → all is_line (lines_loop fuel s) ≡ true
unfolding lines_loop
all-is_line-lines_loop zero s = refl
all-is_line-lines_loop (suc fuel) [] = refl
all-is_line-lines_loop (suc fuel) (c ∷ cs) = elim (Option-cases (split_at b'\n' (c ∷ cs))) [
  | inl e ↦ rw (e, lines_loop) (ground (arith, split_at-none-contains (c ∷ cs) e))
  | inr (r, e) ↦
      rw (e, lines_loop)
        (ground
          (arith, (split_at-eq-some b'\n' (c ∷ cs) r.0 r.1 e).1, all-is_line-lines_loop fuel r.1))
]

-- Every line that is read is free of newlines.
pub all-is_line-get_lines : (s : Bytes) → all is_line (get_lines s) ≡ true
unfolding get_lines
all-is_line-get_lines s = all-is_line-lines_loop (length s) s
