-- ===== src/ConfigStore/Wpa/Written.antt =====
-- What `SaveWpaSupplicant` wrote to wpa_supplicant.conf, read as the file's lines.
use virtualchime.Base.{
  ℕ, zero, suc, ◌+◌, ◌-◌, Bool, true, ◌||◌, List, [], ◌∷◌, ◌++◌, ◌≡◌, inl, inr, refl, arith, Option,
  none, some, all, all-append, Bytes, codes, contains, Bool-cases, take, drop,
}
use virtualchime.Text.{trim, get_lines}
use virtualchime.Text.Lines.{is_line, get_lines-unlines, all-is_line-get_lines}
use virtualchime.ConfigStore.Types.{SaveRequest}
use virtualchime.ConfigStore.ChimeFile.{join_lines}
use virtualchime.ConfigStore.Wpa.{
  WpaData, quote_for_wpa, escape_for_wpa, wpa_key_value, parse_wpa_data, edit_line, edit_range,
  insert_at, insert_missing, last_is_empty, ssid_line_of, psk_line_of, write_network, with_header,
  Chosen, password, refused, choose_password, edited, edit_with, edit_wpa,
}
use virtualchime.ConfigStore.Wpa.Lines.{Holds}
use virtualchime.ConfigStore.Wpa.RoundTrip.{wanted, choose_password-wanted, edit_wpa-parse}

contains-append : (x : ℕ) (a b : Bytes) → contains x (a ++ b) ≡ (contains x a || contains x b)
contains-append x [] b = refl
contains-append x (c ∷ a) b = ground (arith, contains-append x a b)

all-take : (n : ℕ) (ls : List Bytes) → all is_line ls ≡ true → all is_line (take n ls) ≡ true
all-take zero ls h = refl
all-take (suc n) [] h = refl
all-take (suc n) (l ∷ ls) h = ground (arith, all-take n ls)

all-drop : (n : ℕ) (ls : List Bytes) → all is_line ls ≡ true → all is_line (drop n ls) ≡ true
all-drop zero ls h = h
all-drop (suc n) [] h = refl
all-drop (suc n) (l ∷ ls) h = all-drop n ls (ground arith)

insert_at-lines :
    (pos : ℕ) (l : Bytes) (ls : List Bytes)
    → is_line l ≡ true
    → all is_line ls ≡ true
    → all is_line (insert_at pos l ls) ≡ true
insert_at-lines pos l ls a b =
    rw (all-append is_line (take pos ls) (l ∷ drop pos ls))
      (ground (arith, all-take pos ls b, all-drop pos ls b))

escape_for_wpa-line : (s : Bytes) → is_line s ≡ true → is_line (escape_for_wpa s) ≡ true
unfolding escape_for_wpa
escape_for_wpa-line [] h = refl
escape_for_wpa-line (c ∷ s) h = ground (arith, escape_for_wpa-line s)

quoted-line :
    (prefix value : Bytes)
    → is_line prefix ≡ true
    → is_line value ≡ true
    → is_line (prefix ++ quote_for_wpa value) ≡ true
unfolding quote_for_wpa
quoted-line prefix value a b =
    let inner = contains-append b'\n' (escape_for_wpa value) (codes "\"") in
    rw (contains-append b'\n' prefix (quote_for_wpa value))
      (ground (arith, a, inner, escape_for_wpa-line value b))

module _ (s p : Bytes) (s_line : is_line s ≡ true) (p_line : is_line p ≡ true) where
  edit_line-line :
      (line : Bytes) (o : Option (Bytes × Bytes))
      → is_line line ≡ true
      → is_line (edit_line s p line o).0 ≡ true
  edit_line-line line none h = h
  edit_line-line line (some (key, value)) h = ground (arith, s_line, p_line, h)

  edit_range-lines :
      (skip count : ℕ) (ls : List Bytes)
      → all is_line ls ≡ true
      → all is_line (edit_range s p skip count ls).0 ≡ true
  unfolding edit_range
  edit_range-lines skip count [] h = refl
  edit_range-lines (suc skip) count (l ∷ ls) h = ground (arith, h, edit_range-lines skip count ls)
  edit_range-lines zero zero (l ∷ ls) h = h
  edit_range-lines zero (suc count) (l ∷ ls) h =
      ground (arith, h, edit_range-lines zero count ls, edit_line-line l (wpa_key_value (trim l)))

  insert_missing-lines :
      (block_end : ℕ) (e : List Bytes × Bool × Bool)
      → all is_line e.0 ≡ true
      → all is_line (insert_missing s p block_end e) ≡ true
  insert_missing-lines block_end (ls, ssid_written, psk_written) h =
      let with_ssid = insert_at-lines block_end s ls s_line h in
      elim (Bool-cases ssid_written) [
        | inl e ↦ elim (Bool-cases psk_written) [
          | inl f ↦ rw (e, f) h
          | inr f ↦ rw (e, f) (insert_at-lines block_end p ls p_line h)
        ]
        | inr e ↦ elim (Bool-cases psk_written) [
          | inl f ↦ rw (e, f) with_ssid
          | inr f ↦ rw (e, f) (insert_at-lines (block_end + 1) p _ p_line with_ssid)
        ]
      ]

  write_network-lines :
      (d : WpaData) (ls : List Bytes)
      → all is_line ls ≡ true
      → all is_line (write_network d s p ls) ≡ true
  unfolding write_network
  write_network-lines d ls h =
      let block = codes "network={" ∷ s ∷ p ∷ codes "}" ∷ [] in
      let block_lines : all is_line block ≡ true = ground (arith, s_line, p_line) in
      elim (Bool-cases d.has_network_block) [
        | inr e ↦ elim (Bool-cases (last_is_empty ls)) [
          | inl f ↦ rw (e, f) (rw (all-append is_line ls block) (ground (arith, h, block_lines)))
          | inr f ↦
              rw (e, f)
                (rw (all-append is_line (ls ++ [] ∷ []) block, all-append is_line ls ([] ∷ []))
                  (ground (arith, h, block_lines)))
        ]
        | inl e ↦ rw e (
            insert_missing-lines d.block_end
              (edit_range s p (d.block_start + 1) (d.block_end - (d.block_start + 1)) ls)
              (edit_range-lines (d.block_start + 1) (d.block_end - (d.block_start + 1)) ls h))
      ]

with_header-lines : (ls : List Bytes) → all is_line ls ≡ true → all is_line (with_header ls) ≡ true
with_header-lines [] h = refl
with_header-lines (l ∷ ls) h = h

edit_with-lines :
    (r : SaveRequest) (ls : List Bytes) (chosen : Chosen) (ls' : List Bytes)
    → is_line r.config.wifi_ssid ≡ true
    → ((p : Bytes) → chosen ≡ password p → is_line p ≡ true)
    → all is_line ls ≡ true
    → edit_with r ls chosen ≡ edited ls'
    → all is_line ls' ≡ true
edit_with-lines r ls (refused e) ls' a b c h = absurd (cc)
edit_with-lines r ls (password p) ls' a b c h =
    let ssid = r.config.wifi_ssid in
    let same : write_network (parse_wpa_data ls) (ssid_line_of ssid) (psk_line_of p) ls ≡ ls' =
      cc in
    rw (← same) (
      write_network-lines (ssid_line_of ssid) (psk_line_of p)
        (quoted-line (codes "    ssid=") ssid refl a)
        (quoted-line (codes "    psk=") p refl (b p refl)) (parse_wpa_data ls) ls c)

parse-written :
    (s p : Bytes) (ls : List Bytes)
    → all is_line ls ≡ true
    → Holds s p (parse_wpa_data ls)
    → Holds s p (parse_wpa_data (get_lines (join_lines ls)))
unfolding parse_wpa_data get_lines trim
parse-written s p [] a h = h
parse-written s p (l ∷ ls) a h = rw (get_lines-unlines (l ∷ ls) a) h

pub edit_wpa-written_lines :
    (r : SaveRequest) (read lines : List Bytes)
    → all is_line read ≡ true
    → is_line r.config.wifi_ssid ≡ true
    → is_line (wanted r.wifi_password (parse_wpa_data (with_header read)).psk) ≡ true
    → edit_wpa r read ≡ edited lines
    → Holds r.config.wifi_ssid
        (wanted r.wifi_password (parse_wpa_data (with_header read)).psk)
        (parse_wpa_data (get_lines (join_lines lines)))
unfolding edit_wpa
edit_wpa-written_lines r read lines k a b h =
    let whole = with_header read in
    let psk = (parse_wpa_data whole).psk in
    parse-written r.config.wifi_ssid (wanted r.wifi_password psk) lines
      (edit_with-lines r whole (choose_password r.wifi_password psk) lines a
        (λ p e. rw (← choose_password-wanted r.wifi_password psk p e) b) (with_header-lines read k)
        h)
      (edit_wpa-parse r read lines h)

-- For every content of wpa_supplicant.conf, with a network block or without, closed or not: the
-- text that `SaveWpaSupplicant` writes is read back as the requested network name and as the
-- requested password, or the file's where the request gives none or a blank one, if neither the
-- name nor that password holds a newline.
pub edit_wpa-written :
    (r : SaveRequest) (content : Bytes) (lines : List Bytes)
    → is_line r.config.wifi_ssid ≡ true
    → is_line (wanted r.wifi_password (parse_wpa_data (with_header (get_lines content))).psk) ≡ true
    → edit_wpa r (get_lines content) ≡ edited lines
    → Holds r.config.wifi_ssid
        (wanted r.wifi_password (parse_wpa_data (with_header (get_lines content))).psk)
        (parse_wpa_data (get_lines (join_lines lines)))
edit_wpa-written r content lines =
    edit_wpa-written_lines r (get_lines content) lines (all-is_line-get_lines content)
