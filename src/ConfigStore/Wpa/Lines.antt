-- ===== src/ConfigStore/Wpa/Lines.antt =====
-- The lines that `SaveWpaSupplicant` writes, and what `ParseWpaData` makes of each.
use virtualchime.Base.{
  true, false, List, [], ◌∷◌, ◌++◌, ◌≡◌, inl, inr, refl, ap, ◌∙◌, arith, Option, none, some,
  if◌then◌else◌, Bytes, codes, Bool-cases, ◌==◌, any, bytes_eq, split_at-append,
}
use virtualchime.Text.{trim}
use virtualchime.Text.Trim.{IsTrimmed, IsTrimmed-append, trim_id, trim-append}
use virtualchime.ConfigStore.Wpa.{
  WpaData, assign_field, wpa_key_value, closes, edit_line, ssid_line_of, psk_line_of, quote_for_wpa,
  escape_for_wpa,
}
use virtualchime.ConfigStore.Wpa.Quotes.{quote_for_wpa-IsTrimmed, strip_quotes-quote_for_wpa}
use virtualchime.ConfigStore.Wpa.Block.{assign_all}

trim_ssid_line : (s : Bytes) → trim (ssid_line_of s) ≡ codes "ssid=" ++ quote_for_wpa s
unfolding quote_for_wpa
trim_ssid_line s =
    trim-append (codes "    ") (codes "ssid=" ++ quote_for_wpa s) refl
    ∙ trim_id (codes "ssid=" ++ quote_for_wpa s)
        (IsTrimmed-append b's' (codes "sid=\"" ++ escape_for_wpa s) b'"' [] refl refl)

trim_psk_line : (s : Bytes) → trim (psk_line_of s) ≡ codes "psk=" ++ quote_for_wpa s
unfolding quote_for_wpa
trim_psk_line s =
    trim-append (codes "    ") (codes "psk=" ++ quote_for_wpa s) refl
    ∙ trim_id (codes "psk=" ++ quote_for_wpa s)
        (IsTrimmed-append b'p' (codes "sk=\"" ++ escape_for_wpa s) b'"' [] refl refl)

pub key_value_of :
    (k v : Bytes)
    → any (λ c. c == b'=') k ≡ false
    → IsTrimmed k
    → IsTrimmed v
    → wpa_key_value (k ++ (b'=' ∷ v)) ≡ some (k, v)
unfolding wpa_key_value
key_value_of k v h a b = rw (split_at-append b'=' k v h, wpa_key_value, trim_id k a, trim_id v b)

pub ssid_key_value :
    (s : Bytes) → wpa_key_value (trim (ssid_line_of s)) ≡ some (codes "ssid", quote_for_wpa s)
ssid_key_value s =
    ap wpa_key_value (trim_ssid_line s)
    ∙ key_value_of (codes "ssid") (quote_for_wpa s) refl (record { starts = refl; ends = refl })
        (quote_for_wpa-IsTrimmed s)

pub psk_key_value :
    (s : Bytes) → wpa_key_value (trim (psk_line_of s)) ≡ some (codes "psk", quote_for_wpa s)
psk_key_value s =
    ap wpa_key_value (trim_psk_line s)
    ∙ key_value_of (codes "psk") (quote_for_wpa s) refl (record { starts = refl; ends = refl })
        (quote_for_wpa-IsTrimmed s)

pub assign_ssid_line :
    (s : Bytes) (d : WpaData)
    → assign_field d (wpa_key_value (trim (ssid_line_of s))) ≡ record d { ssid = s }
unfolding bytes_eq
assign_ssid_line s d =
    ap (assign_field d) (ssid_key_value s) ∙ λ i. record d { ssid = strip_quotes-quote_for_wpa s i }

pub assign_psk_line :
    (s : Bytes) (d : WpaData)
    → assign_field d (wpa_key_value (trim (psk_line_of s))) ≡ record d { psk = s }
unfolding bytes_eq
assign_psk_line s d =
    ap (assign_field d) (psk_key_value s) ∙ λ i. record d { psk = strip_quotes-quote_for_wpa s i }

pub closes-ssid_line : (s : Bytes) → closes (ssid_line_of s) ≡ false
unfolding bytes_eq
closes-ssid_line s = ap (λ t. bytes_eq t (codes "}")) (trim_ssid_line s)

pub closes-psk_line : (s : Bytes) → closes (psk_line_of s) ≡ false
unfolding bytes_eq
closes-psk_line s = ap (λ t. bytes_eq t (codes "}")) (trim_psk_line s)

pub assign_all-append :
    (xs ys : List Bytes) (d : WpaData) → assign_all (xs ++ ys) d ≡ assign_all ys (assign_all xs d)
unfolding assign_all
assign_all-append [] ys d = refl
assign_all-append (x ∷ xs) ys d = assign_all-append xs ys (assign_field d (wpa_key_value (trim x)))

pub assign_field-has :
    (d : WpaData) (o : Option (Bytes × Bytes))
    → (assign_field d o).has_network_block ≡ d.has_network_block
assign_field-has d none = refl
assign_field-has d (some (k, v)) = ground arith

pub assign_all-has :
    (ls : List Bytes) (d : WpaData) → (assign_all ls d).has_network_block ≡ d.has_network_block
unfolding assign_all
assign_all-has [] d = refl
assign_all-has (l ∷ ls) d =
    assign_all-has ls (assign_field d (wpa_key_value (trim l)))
    ∙ assign_field-has d (wpa_key_value (trim l))

assign_field-start :
    (d : WpaData) (o : Option (Bytes × Bytes)) → (assign_field d o).block_start ≡ d.block_start
assign_field-start d none = refl
assign_field-start d (some (k, v)) = ground arith

pub assign_all-start :
    (ls : List Bytes) (d : WpaData) → (assign_all ls d).block_start ≡ d.block_start
unfolding assign_all
assign_all-start [] d = refl
assign_all-start (l ∷ ls) d =
    assign_all-start ls (assign_field d (wpa_key_value (trim l)))
    ∙ assign_field-start d (wpa_key_value (trim l))

-- The block holds the name and the password.
abbrev pub Holds : Bytes → Bytes → WpaData → Type 0
Holds s p d = (d.ssid ≡ s) × (d.psk ≡ p) × (d.has_network_block ≡ true)

module _ (s p : Bytes) where
  abbrev pub S : Bytes
  S = ssid_line_of s

  abbrev pub P : Bytes
  P = psk_line_of p

  -- What one edited line makes of the values.
  pub edited_assign :
      (d : WpaData) (line : Bytes) (o : Option (Bytes × Bytes))
      → wpa_key_value (trim line) ≡ o
      → let (new, f, g) = edit_line S P line o in
        ((assign_field d (wpa_key_value (trim new))).ssid ≡ (if f then s else d.ssid))
        × ((assign_field d (wpa_key_value (trim new))).psk ≡ (if g then p else d.psk))
        × (closes line ≡ false → closes new ≡ false)
  edited_assign d line none e = rw e (refl, refl, λ h. h)
  edited_assign d line (some (k, v)) e = elim (Bool-cases (bytes_eq k (codes "ssid"))) [
    | inl b ↦ rw b (rw (assign_ssid_line s d) (refl, refl, λ h. closes-ssid_line s))
    | inr b ↦ rw b (elim (Bool-cases (bytes_eq k (codes "psk"))) [
      | inl c ↦ rw c (rw (assign_psk_line p d) (refl, refl, λ h. closes-psk_line p))
      | inr c ↦ rw c (rw e (rw (b, c) (refl, refl, λ h. h)))
    ])
  ]
