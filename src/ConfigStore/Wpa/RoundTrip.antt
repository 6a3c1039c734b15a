-- ===== src/ConfigStore/Wpa/RoundTrip.antt =====
-- The whole of `SaveWpaSupplicant` against `ParseWpaData`, for every file.
use virtualchime.Base.{
  ◌+◌, true, false, List, [], ◌∷◌, ◌++◌, ◌≡◌, ◌↔◌, inl, inr, refl, ap, ◌∙◌, arith, Option, none,
  some, if◌then◌else◌, Bytes, codes, Bool-cases, length, append_assoc, any-append, is_empty,
  bytes_eq,
}
use virtualchime.Text.{trim}
use virtualchime.ConfigStore.Types.{SaveRequest, StoreError, password_blank, password_missing}
use virtualchime.ConfigStore.Wpa.{
  WpaData, opens, closes, empty_data, parse_wpa_data, last_is_empty, ssid_line_of, psk_line_of,
  write_network, with_header, Chosen, password, refused, choose_password, edited, rejected,
  edit_with, edit_wpa,
}
use virtualchime.ConfigStore.Wpa.Block.{
  assign_all, NoneCloses, NoneOpens, find_close, find_open, parse_unclosed, parse_opened,
  parse_unopened,
}
use virtualchime.ConfigStore.Wpa.Lines.{S, P, Holds, assign_all-append}
use virtualchime.ConfigStore.Wpa.Saved.{
  extras-NoneCloses, extras-assign, parsed_block, write_network_block,
}

opens_network : opens (codes "network={") ≡ true
unfolding bytes_eq trim
opens_network = refl

closes_network : closes (codes "network={") ≡ false
unfolding bytes_eq trim
closes_network = refl

closes_brace : closes (codes "}") ≡ true
unfolding bytes_eq trim
closes_brace = refl

closes_empty : closes [] ≡ false
unfolding bytes_eq trim
closes_empty = refl

opens_empty : opens [] ≡ false
unfolding bytes_eq trim
opens_empty = refl

-- The empty line that separates the new block.
abbrev separator : List Bytes → List Bytes
separator lines = if last_is_empty lines then [] else [] ∷ []

separator-NoneCloses : (lines : List Bytes) → NoneCloses (separator lines)
separator-NoneCloses lines = elim (Bool-cases (last_is_empty lines)) [
  | inl e ↦ rw e
  | inr e ↦ rw e (rw closes_empty)
]

separator-NoneOpens : (lines : List Bytes) → NoneOpens (separator lines)
separator-NoneOpens lines = elim (Bool-cases (last_is_empty lines)) [
  | inl e ↦ rw e
  | inr e ↦ rw e (rw opens_empty)
]

module _ (s p : Bytes) where
  abbrev new_block : List Bytes
  new_block = codes "network={" ∷ S s p ∷ P s p ∷ codes "}" ∷ []

  write_network_new :
      (d : WpaData) (lines : List Bytes)
      → d.has_network_block ≡ false
      → write_network d (S s p) (P s p) lines ≡ lines ++ (separator lines ++ new_block)
  unfolding write_network
  write_network_new d lines h = elim (Bool-cases (last_is_empty lines)) [
    | inl e ↦ rw (h, e)
    | inr e ↦ rw (h, e) (append_assoc lines ([] ∷ []) new_block)
  ]

  assign_new :
      (d : WpaData)
      → ((assign_all (S s p ∷ P s p ∷ []) d).ssid ≡ s)
        × ((assign_all (S s p ∷ P s p ∷ []) d).psk ≡ p)
  assign_new d = extras-assign s p false false d refl refl

  -- There was no block: the new one is the first.
  write_unopened :
      (lines : List Bytes)
      → NoneOpens lines
      → Holds s p (parse_wpa_data (lines ++ (separator lines ++ new_block)))
  write_unopened lines h = rw (← append_assoc lines (separator lines) new_block) (
      parsed_block s p (lines ++ separator lines) (codes "network={") (S s p ∷ P s p ∷ [])
        (codes "}") []
        (any-append (λ l. opens l) lines (separator lines) ∙ rw (h, separator-NoneOpens lines))
        opens_network (extras-NoneCloses s p false false) closes_brace assign_new)

  -- A block was open to the end of the file: the new lines complete it.
  write_unclosed :
      (pre : List Bytes) (open_line : Bytes) (rest lines : List Bytes)
      → NoneOpens pre
      → opens open_line ≡ true
      → NoneCloses rest
      → Holds s p (parse_wpa_data ((pre ++ (open_line ∷ rest)) ++ (separator lines ++ new_block)))
  write_unclosed pre open_line rest lines a b c =
      let front = (rest ++ separator lines) ++ codes "network={" ∷ [] in
      let body = front ++ (S s p ∷ P s p ∷ []) in
      let regroup : (pre ++ (open_line ∷ rest)) ++ (separator lines ++ new_block)
          ≡ pre ++ (open_line ∷ (body ++ (codes "}" ∷ []))) =
        simp append_assoc in
      let front_closes : NoneCloses front =
        any-append (λ l. closes l) (rest ++ separator lines) (codes "network={" ∷ [])
        ∙ rw (
          any-append (λ l. closes l) rest (separator lines),
          c,
          separator-NoneCloses lines,
          closes_network,
        ) in
      rw regroup (
        parsed_block s p pre open_line body (codes "}") [] a b
          (any-append (λ l. closes l) front (S s p ∷ P s p ∷ [])
            ∙ rw front_closes (extras-NoneCloses s p false false))
          closes_brace
          (λ d.
            rw (assign_all-append front (S s p ∷ P s p ∷ []) d) (assign_new (assign_all front d))))

  -- Whatever the lines were, the new lines hold the name and the password.
  write_network-Holds :
      (lines : List Bytes)
      → Holds s p (parse_wpa_data (write_network (parse_wpa_data lines) (S s p) (P s p) lines))
  write_network-Holds lines = elim (find_open lines) [
    | inl none_opens ↦
        rw
          (write_network_new (parse_wpa_data lines) lines (
            unfold parse_wpa_data in
            ap (λ d. d.has_network_block) (parse_unopened 0 lines empty_data none_opens)))
          (write_unopened lines none_opens)
    | inr o ↦ elim (find_close o.rest) [
      | inl none_closes ↦
          let d = record empty_data { has_network_block = true; block_start = 0 + length o.pre } in
          let no_block : (parse_wpa_data (o.pre ++ (o.open_line ∷ o.rest))).has_network_block
              ≡ false =
            unfold parse_wpa_data in
            ap (λ d. d.has_network_block)
              (parse_opened 0 o.pre o.open_line o.rest empty_data o.outer o.is_open
                ∙ parse_unclosed (0 + length o.pre + 1) o.rest d none_closes) in
          rw o.splits (
            rw
              (write_network_new (parse_wpa_data (o.pre ++ (o.open_line ∷ o.rest)))
                (o.pre ++ (o.open_line ∷ o.rest)) no_block)
              (write_unclosed o.pre o.open_line o.rest (o.pre ++ (o.open_line ∷ o.rest)) o.outer
                o.is_open none_closes))
      | inr c ↦
          rw (o.splits, c.splits)
            (write_network_block s p o.pre o.open_line c.body c.close c.post o.outer o.is_open
              c.inner c.is_close)
    ]
  ]

-- The password that a request leads to: its own, or the one in the file if it gives none.
abbrev pub wanted : Option Bytes → Bytes → Bytes
wanted none psk = psk
wanted (some given) psk = if is_empty given then psk else given

pub choose_password-wanted :
    (given : Option Bytes) (psk p : Bytes)
    → choose_password given psk ≡ password p
    → wanted given psk ≡ p
choose_password-wanted none psk p h = ground arith
choose_password-wanted (some given) psk p h = ground arith

edit_with-Holds :
    (r : SaveRequest) (lines : List Bytes) (chosen : Chosen) (lines' : List Bytes)
    → edit_with r lines chosen ≡ edited lines'
    → (p : Bytes) × (chosen ≡ password p) × Holds r.config.wifi_ssid p (parse_wpa_data lines')
edit_with-Holds r lines (refused e) lines' h = absurd (cc)
edit_with-Holds r lines (password p) lines' h =
    let same : write_network (parse_wpa_data lines) (ssid_line_of r.config.wifi_ssid)
          (psk_line_of p) lines
        ≡ lines' =
      cc in
    (p, refl, rw (← same) (write_network-Holds r.config.wifi_ssid p lines))

-- For every wpa_supplicant.conf, with a network block or without, closed or not: the list of
-- lines that `SaveWpaSupplicant` builds is parsed to the requested network name, and to the requested
-- password, or the file's password where the request gives none or a blank one.
pub edit_wpa-parse :
    (r : SaveRequest) (read lines' : List Bytes)
    → edit_wpa r read ≡ edited lines'
    → Holds r.config.wifi_ssid
        (wanted r.wifi_password (parse_wpa_data (with_header read)).psk)
        (parse_wpa_data lines')
unfolding edit_wpa
edit_wpa-parse r read lines' h =
    let psk = (parse_wpa_data (with_header read)).psk in
    let (p, chosen, holds) =
      edit_with-Holds r (with_header read) (choose_password r.wifi_password psk) lines' h in
    rw (choose_password-wanted r.wifi_password psk p chosen) holds

refused_iff :
    (given : Option Bytes) (psk : Bytes)
    → ((error : StoreError) × (choose_password given psk ≡ refused error)) ↔ (wanted given psk ≡ [])
refused_iff none [] = (λ h. refl, λ h. (password_missing, refl))
refused_iff none (c ∷ psk) = (λ h. let e = h.1 in absurd (cc), λ h. absurd (cc))
refused_iff (some []) [] = (λ h. refl, λ h. (password_blank, refl))
refused_iff (some []) (c ∷ psk) = (λ h. let e = h.1 in absurd (cc), λ h. absurd (cc))
refused_iff (some (d ∷ given)) psk = (λ h. let e = h.1 in absurd (cc), λ h. absurd (cc))

edit_with_refused :
    (r : SaveRequest) (lines : List Bytes) (chosen : Chosen)
    → ((error : StoreError) × (edit_with r lines chosen ≡ rejected error))
    → (error : StoreError) × (chosen ≡ refused error)
edit_with_refused r lines (refused e) h = (e, refl)
edit_with_refused r lines (password p) h = let e = h.1 in absurd (cc)

-- It is refused exactly where neither the request nor the file has a password.
pub edit_wpa_refused_iff :
    (r : SaveRequest) (read : List Bytes)
    → ((error : StoreError) × (edit_wpa r read ≡ rejected error))
      ↔ (wanted r.wifi_password (parse_wpa_data (with_header read)).psk ≡ [])
unfolding edit_wpa
edit_wpa_refused_iff r read =
    let lines = with_header read in
    let psk = (parse_wpa_data lines).psk in
    let c = refused_iff r.wifi_password psk in
    (
      λ h. c.0 (edit_with_refused r lines (choose_password r.wifi_password psk) h),
      λ h. let (e, chosen) = c.1 h in (e, rw chosen),
    )
