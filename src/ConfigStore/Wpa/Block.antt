-- ===== src/ConfigStore/Wpa/Block.antt =====
-- The network block that `ParseWpaData` finds: where it stands in the lines, and what the parser
-- makes of lines that are put into it.
use virtualchime.Base.{
  ℕ, ◌+◌, true, false, List, [], ◌∷◌, ◌++◌, ◌≡◌, ◌⊎◌, inl, inr, refl, ap, ◌∙◌, arith, Bytes,
  Bool-cases, any, length,
}
use virtualchime.Text.{trim}
use virtualchime.ConfigStore.Wpa.{
  WpaData, assign_field, wpa_key_value, opens, closes, parse_inside, parse_outside,
}

-- What the parser makes of a run of lines inside the block, none of which closes it.
unfoldable pub assign_all : List Bytes → WpaData → WpaData
assign_all [] d = d
assign_all (l ∷ ls) d = assign_all ls (assign_field d (wpa_key_value (trim l)))

abbrev pub NoneCloses : List Bytes → Type 0
NoneCloses ls = any (λ l. closes l) ls ≡ false

abbrev pub NoneOpens : List Bytes → Type 0
NoneOpens ls = any (λ l. opens l) ls ≡ false

pub parse_inside-append :
    (i : ℕ) (xs ys : List Bytes) (d : WpaData)
    → NoneCloses xs
    → parse_inside i (xs ++ ys) d ≡ parse_inside (i + length xs) ys (assign_all xs d)
unfolding parse_inside assign_all
parse_inside-append i [] ys d h = ap (λ n. parse_inside n ys d) (omega arith)
parse_inside-append i (x ∷ xs) ys d h = elim (Bool-cases (closes x)) [
  | inl e ↦ absurd (cc)
  | inr e ↦
      rw (e, parse_inside)
        (parse_inside-append (i + 1) xs ys (assign_field d (wpa_key_value (trim x))) (ground arith)
          ∙ ap (λ n. parse_inside n ys (assign_all xs (assign_field d (wpa_key_value (trim x)))))
              (omega arith))
]

pub parse_outside-append :
    (i : ℕ) (xs ys : List Bytes) (d : WpaData)
    → NoneOpens xs
    → parse_outside i (xs ++ ys) d ≡ parse_outside (i + length xs) ys d
unfolding parse_outside
parse_outside-append i [] ys d h = ap (λ n. parse_outside n ys d) (omega arith)
parse_outside-append i (x ∷ xs) ys d h = elim (Bool-cases (opens x)) [
  | inl e ↦ absurd (cc)
  | inr e ↦
      rw (e, parse_outside)
        (parse_outside-append (i + 1) xs ys d (ground arith)
          ∙ ap (λ n. parse_outside n ys d) (omega arith))
]

-- Lines split at the first one that closes the block.
pub record Closed (ls : List Bytes) : Type 0 where
  pub body : List Bytes
  pub close : Bytes
  pub post : List Bytes
  pub splits : ls ≡ body ++ (close ∷ post)
  pub inner : NoneCloses body
  pub is_close : closes close ≡ true

pub find_close : (ls : List Bytes) → NoneCloses ls ⊎ Closed ls
find_close [] = inl refl
find_close (l ∷ ls) = elim (Bool-cases (closes l)) [
  | inl e ↦
      inr (record { body = []; close = l; post = ls; splits = refl; inner = refl; is_close = e })
  | inr e ↦ elim (find_close ls) [
    | inl n ↦ inl (rw e n)
    | inr c ↦ inr (record {
      body = l ∷ c.body;
      close = c.close;
      post = c.post;
      splits = ap (◌∷◌ l) c.splits;
      inner = rw e c.inner;
      is_close = c.is_close;
    })
  ]
]

-- Lines split at the first one that opens a block.
pub record Opened (ls : List Bytes) : Type 0 where
  pub pre : List Bytes
  pub open_line : Bytes
  pub rest : List Bytes
  pub splits : ls ≡ pre ++ (open_line ∷ rest)
  pub outer : NoneOpens pre
  pub is_open : opens open_line ≡ true

pub find_open : (ls : List Bytes) → NoneOpens ls ⊎ Opened ls
find_open [] = inl refl
find_open (l ∷ ls) = elim (Bool-cases (opens l)) [
  | inl e ↦
      inr (record { pre = []; open_line = l; rest = ls; splits = refl; outer = refl; is_open = e })
  | inr e ↦ elim (find_open ls) [
    | inl n ↦ inl (rw e n)
    | inr c ↦ inr (record {
      pre = l ∷ c.pre;
      open_line = c.open_line;
      rest = c.rest;
      splits = ap (◌∷◌ l) c.splits;
      outer = rw e c.outer;
      is_open = c.is_open;
    })
  ]
]

-- The values that the parser keeps, once a block has been opened and closed.
pub parse_closed :
    (i : ℕ) (body : List Bytes) (close : Bytes) (post : List Bytes) (d : WpaData)
    → NoneCloses body
    → closes close ≡ true
    → parse_inside i (body ++ (close ∷ post)) d
      ≡ record (assign_all body d) { block_end = i + length body }
parse_closed i body close post d h c =
    parse_inside-append i body (close ∷ post) d h ∙ unfold parse_inside in rw (c, parse_inside)

pub parse_unclosed :
    (i : ℕ) (body : List Bytes) (d : WpaData)
    → NoneCloses body
    → parse_inside i body d ≡ record (assign_all body d) { has_network_block = false }
unfolding parse_inside assign_all
parse_unclosed i [] d h = refl
parse_unclosed i (x ∷ xs) d h = elim (Bool-cases (closes x)) [
  | inl e ↦ absurd (cc)
  | inr e ↦
      rw (e, parse_inside)
        (parse_unclosed (i + 1) xs (assign_field d (wpa_key_value (trim x))) (ground arith))
]

pub parse_opened :
    (i : ℕ) (pre : List Bytes) (open_line : Bytes) (rest : List Bytes) (d : WpaData)
    → NoneOpens pre
    → opens open_line ≡ true
    → parse_outside i (pre ++ (open_line ∷ rest)) d
      ≡ parse_inside
          (i + length pre + 1)
          rest
          (record d { has_network_block = true; block_start = i + length pre })
parse_opened i pre open_line rest d h o =
    parse_outside-append i pre (open_line ∷ rest) d h
    ∙ unfold parse_outside in rw (o, parse_outside)

pub parse_unopened :
    (i : ℕ) (ls : List Bytes) (d : WpaData) → NoneOpens ls → parse_outside i ls d ≡ d
unfolding parse_outside
parse_unopened i [] d h = refl
parse_unopened i (x ∷ xs) d h = elim (Bool-cases (opens x)) [
  | inl e ↦ absurd (cc)
  | inr e ↦ rw (e, parse_outside) (parse_unopened (i + 1) xs d (ground arith))
]
