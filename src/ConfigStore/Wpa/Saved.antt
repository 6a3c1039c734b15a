-- ===== src/ConfigStore/Wpa/Saved.antt =====
-- `ParseWpaData` reads back the network name and the password that `SaveWpaSupplicant` wrote.
use virtualchime.Base.{
  ℕ, suc, ◌+◌, ◌-◌, Bool, true, false, ◌||◌, List, [], ◌∷◌, ◌++◌, ◌≡◌, refl, sym, ap, ◌∙◌, arith,
  if◌then◌else◌, Bytes, length, take, drop, append_assoc, length-append, any-append,
}
use virtualchime.Text.{trim}
use virtualchime.ConfigStore.Wpa.{
  WpaData, assign_field, wpa_key_value, opens, closes, empty_data, parse_wpa_data, edit_line,
  edit_range, insert_at, insert_missing, write_network,
}
use virtualchime.ConfigStore.Wpa.Block.{
  assign_all, NoneCloses, NoneOpens, parse_closed, parse_opened,
}
use virtualchime.ConfigStore.Wpa.Lines.{
  S, P, Holds, edited_assign, assign_ssid_line, assign_psk_line, closes-ssid_line, closes-psk_line,
  assign_all-append, assign_all-has, assign_all-start,
}

length_middle :
    (xs : List Bytes) (y : Bytes) (ys : List Bytes)
    → length (xs ++ (y ∷ ys)) ≡ length xs + suc (length ys)
length_middle xs y ys = length-append xs (y ∷ ys)

take_append : (xs ys : List Bytes) → take (length xs) (xs ++ ys) ≡ xs
take_append [] ys = refl
take_append (x ∷ xs) ys = ap (◌∷◌ x) (take_append xs ys)

drop_append : (xs ys : List Bytes) → drop (length xs) (xs ++ ys) ≡ ys
drop_append [] ys = refl
drop_append (x ∷ xs) ys = drop_append xs ys

insert_at-append :
    (n : ℕ) (xs ys : List Bytes) (l : Bytes)
    → n ≡ length xs
    → insert_at n l (xs ++ ys) ≡ xs ++ (l ∷ ys)
insert_at-append n xs ys l e = rw (e, take_append xs ys, drop_append xs ys)

either_written :
    (f g : Bool) (v x y : Bytes)
    → x ≡ (if f then v else y)
    → (if g then v else x) ≡ (if f || g then v else y)
either_written true true v x y e = refl
either_written true false v x y e = e
either_written false true v x y e = refl
either_written false false v x y e = e

module _ (s p : Bytes) where
  -- The lines that are inserted behind the block's own.
  abbrev pub extras : Bool → Bool → List Bytes
  extras f g = (if f then [] else S s p ∷ []) ++ (if g then [] else P s p ∷ [])

  insert_missing-append :
      (n : ℕ) (xs ys : List Bytes) (f g : Bool)
      → n ≡ length xs
      → insert_missing (S s p) (P s p) n (xs ++ ys, f, g) ≡ xs ++ (extras f g ++ ys)
  insert_missing-append n xs ys true true e = refl
  insert_missing-append n xs ys true false e = insert_at-append n xs ys (P s p) e
  insert_missing-append n xs ys false true e = insert_at-append n xs ys (S s p) e
  insert_missing-append n xs ys false false e = rw (insert_at-append n xs ys (S s p) e) (
      rw (← append_assoc xs (S s p ∷ []) ys) (
        insert_at-append (n + 1) (xs ++ S s p ∷ []) ys (P s p)
          (omega (arith, length-append xs (S s p ∷ []), e))
        ∙ append_assoc xs (S s p ∷ []) (P s p ∷ ys)))

  edit_range_skip :
      (n : ℕ) (xs ys : List Bytes)
      → edit_range (S s p) (P s p) (length xs) n (xs ++ ys) ≡ (
        xs ++ (edit_range (S s p) (P s p) 0 n ys).0,
        (edit_range (S s p) (P s p) 0 n ys).1,
        (edit_range (S s p) (P s p) 0 n ys).2,
      )
  unfolding edit_range
  edit_range_skip n [] ys = refl
  edit_range_skip n (x ∷ xs) ys = rw (edit_range_skip n xs ys)

  -- The edited lines of the block, and the two flags.
  abbrev edits : List Bytes → List Bytes × Bool × Bool
  edits body = edit_range (S s p) (P s p) 0 (length body) body

  edit_range_body :
      (xs ys : List Bytes)
      → edit_range (S s p) (P s p) 0 (length xs) (xs ++ ys)
        ≡ ((edits xs).0 ++ ys, (edits xs).1, (edits xs).2)
  unfolding edit_range
  edit_range_body [] [] = refl
  edit_range_body [] (y ∷ ys) = refl
  edit_range_body (x ∷ xs) ys = rw (edit_range_body xs ys)

  length-edits : (xs : List Bytes) → length (edits xs).0 ≡ length xs
  unfolding edit_range
  length-edits [] = refl
  length-edits (x ∷ xs) = ap suc (length-edits xs)

  edits-NoneCloses : (xs : List Bytes) → NoneCloses xs → NoneCloses (edits xs).0
  unfolding edit_range
  edits-NoneCloses [] h = refl
  edits-NoneCloses (x ∷ xs) h =
      let e = edited_assign s p empty_data x (wpa_key_value (trim x)) refl in
      ground (arith, e.2, edits-NoneCloses xs)

  edits-assign :
      (xs : List Bytes) (d : WpaData)
      → ((assign_all (edits xs).0 d).ssid ≡ (if (edits xs).1 then s else d.ssid))
        × ((assign_all (edits xs).0 d).psk ≡ (if (edits xs).2 then p else d.psk))
  unfolding edit_range assign_all
  edits-assign [] d = (refl, refl)
  edits-assign (x ∷ xs) d =
      let new = (edit_line (S s p) (P s p) x (wpa_key_value (trim x))).0 in
      let e = edited_assign s p d x (wpa_key_value (trim x)) refl in
      let r = edits-assign xs (assign_field d (wpa_key_value (trim new))) in
      (
        r.0 ∙ either_written _ (edits xs).1 s _ d.ssid e.0,
        r.1 ∙ either_written _ (edits xs).2 p _ d.psk e.1,
      )

  pub extras-NoneCloses : (f g : Bool) → NoneCloses (extras f g)
  extras-NoneCloses true true = refl
  extras-NoneCloses true false = rw (closes-psk_line p)
  extras-NoneCloses false true = rw (closes-ssid_line s)
  extras-NoneCloses false false = rw (closes-ssid_line s, closes-psk_line p)

  pub extras-assign :
      (f g : Bool) (d : WpaData)
      → d.ssid ≡ (if f then s else d.ssid)
      → d.psk ≡ (if g then p else d.psk)
      → ((assign_all (extras f g) d).ssid ≡ s) × ((assign_all (extras f g) d).psk ≡ p)
  unfolding assign_all
  extras-assign true true d a b = (a, b)
  extras-assign true false d a b = rw (assign_psk_line p d) (a, refl)
  extras-assign false true d a b = rw (assign_ssid_line s d) (refl, b)
  extras-assign false false d a b =
      rw (assign_ssid_line s d, assign_psk_line p (record d { ssid = s })) (refl, refl)

  written_self : (f : Bool) (v x y : Bytes) → x ≡ (if f then v else y) → x ≡ (if f then v else x)
  written_self true v x y e = e
  written_self false v x y e = refl

  -- The block's lines, edited and completed, give the name and the password.
  edited_block :
      (xs : List Bytes) (d : WpaData)
      → let all_lines = (edits xs).0 ++ extras (edits xs).1 (edits xs).2 in
        ((assign_all all_lines d).ssid ≡ s) × ((assign_all all_lines d).psk ≡ p)
  edited_block xs d =
      let (body, f, g) = edits xs in
      let (a, b) = edits-assign xs d in
      rw (assign_all-append body (extras f g) d) (
        extras-assign f g (assign_all body d) (written_self f s _ d.ssid a)
          (written_self g p _ d.psk b))

  -- A block is parsed to the values that its lines assign.
  pub parsed_block :
      (pre : List Bytes) (open_line : Bytes) (body : List Bytes) (close : Bytes) (post : List Bytes)
      → NoneOpens pre
      → opens open_line ≡ true
      → NoneCloses body
      → closes close ≡ true
      → ((d : WpaData) → ((assign_all body d).ssid ≡ s) × ((assign_all body d).psk ≡ p))
      → Holds s p (parse_wpa_data (pre ++ (open_line ∷ (body ++ (close ∷ post)))))
  unfolding parse_wpa_data
  parsed_block pre open_line body close post a b c e h =
      let d = record empty_data { has_network_block = true; block_start = length pre } in
      let d' = record empty_data { has_network_block = true; block_start = 0 + length pre } in
      rw
        (
          parse_opened 0 pre open_line (body ++ (close ∷ post)) empty_data a b,
          parse_closed (0 + length pre + 1) body close post d' c e,
        )
        ((h d').0, (h d').1, assign_all-has body d')

  write_edited :
      (pre body rest : List Bytes) (n skip count : ℕ)
      → skip ≡ length pre
      → count ≡ length body
      → n ≡ length pre + length body
      → insert_missing
          (S s p)
          (P s p)
          n
          (edit_range (S s p) (P s p) skip count (pre ++ (body ++ rest)))
        ≡ (pre ++ (edits body).0) ++ (extras (edits body).1 (edits body).2 ++ rest)
  write_edited pre body rest n skip count a b c =
      rw (a, b, edit_range_skip (length body) pre (body ++ rest), edit_range_body body rest)
        (rw (← append_assoc pre (edits body).0 rest) (
          insert_missing-append n (pre ++ (edits body).0) rest (edits body).1 (edits body).2
            (omega (arith, length-append pre (edits body).0, length-edits body))))

  write_network_found :
      (d : WpaData) (pre : List Bytes) (open_line : Bytes) (body rest : List Bytes)
      → d.has_network_block ≡ true
      → d.block_start ≡ length pre
      → d.block_end ≡ length pre + 1 + length body
      → write_network d (S s p) (P s p) (pre ++ (open_line ∷ (body ++ rest)))
        ≡ pre ++ (open_line ∷ (((edits body).0 ++ extras (edits body).1 (edits body).2) ++ rest))
  unfolding write_network
  write_network_found d pre open_line body rest h st en =
      let front = pre ++ open_line ∷ [] in
      let size = length-append pre (open_line ∷ []) in
      let (done, f, g) = edits body in
      rw h (
        rw (← append_assoc pre (open_line ∷ []) (body ++ rest)) (
          write_edited front body rest d.block_end (d.block_start + 1)
            (d.block_end - (d.block_start + 1)) (omega (arith, size)) (omega arith)
            (omega (arith, size))
          ∙ append_assoc front done (extras f g ++ rest)
          ∙ append_assoc pre (open_line ∷ []) (done ++ (extras f g ++ rest))
          ∙ ap (λ t. pre ++ (open_line ∷ t)) (sym (append_assoc done (extras f g) rest))))

  -- The case of a block that is open and closed.
  pub write_network_block :
      (pre : List Bytes) (open_line : Bytes) (body : List Bytes) (close : Bytes) (post : List Bytes)
      → NoneOpens pre
      → opens open_line ≡ true
      → NoneCloses body
      → closes close ≡ true
      → let lines = pre ++ (open_line ∷ (body ++ (close ∷ post))) in
        Holds s p (parse_wpa_data (write_network (parse_wpa_data lines) (S s p) (P s p) lines))
  write_network_block pre open_line body close post a b c e =
      let lines = pre ++ (open_line ∷ (body ++ (close ∷ post))) in
      let d' = record empty_data { has_network_block = true; block_start = 0 + length pre } in
      let parsed : parse_wpa_data lines
          ≡ record (assign_all body d') { block_end = 0 + length pre + 1 + length body } =
        unfold parse_wpa_data in
        (parse_opened 0 pre open_line (body ++ (close ∷ post)) empty_data a b
          ∙ parse_closed (0 + length pre + 1) body close post d' c e) in
      let (done, f, g) = edits body in
      rw
        (
          parsed,
          write_network_found
              (record (assign_all body d') { block_end = 0 + length pre + 1 + length body }) pre
              open_line body (close ∷ post) (assign_all-has body d')
              (assign_all-start body d' ∙ omega arith) (omega arith),
        )
        (parsed_block pre open_line (done ++ extras f g) close post a b
          (any-append (λ l. closes l) done (extras f g)
            ∙ rw (edits-NoneCloses body c, extras-NoneCloses f g))
          e (edited_block body))
