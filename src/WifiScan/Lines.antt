-- ===== src/WifiScan/Lines.antt =====
-- The lines of `wpa_cli scan_results` as chime/src/webd/wifi_scan.cpp takes them apart.
use virtualchime.Base.{
  Bool, true, false, not, List, [], ◌∷◌, ◌++◌, ◌≡◌, refl, ap, ◌∙◌, arith, some, append-nil,
  append_assoc, is_empty, Bytes, codes, contains, all, starts_with, ◌==◌,
}
use virtualchime.Text.{join}
use virtualchime.WifiScan.{tabs_loop, split_tabs, signal_of, security_from_flags, network_of_line}

abbrev pub no_tab : Bytes → Bool
no_tab s = not (contains b'\t' s)

tabs_loop-field :
    (current f rest : Bytes)
    → no_tab f ≡ true
    → tabs_loop current (f ++ (b'\t' ∷ rest)) ≡ (current ++ f) ∷ tabs_loop [] rest
unfolding tabs_loop
tabs_loop-field current [] rest h = rw append-nil refl
tabs_loop-field current (c ∷ f) rest h =
    let plain : (c == b'\t') ≡ false = ground (arith, h) in
    let tail : no_tab f ≡ true = ground (arith, h) in
    rw (plain, tabs_loop)
      (tabs_loop-field (current ++ c ∷ []) f rest tail
        ∙ ap (λ x. x ∷ tabs_loop [] rest) (append_assoc current (c ∷ []) f))

tabs_loop-last : (current f : Bytes) → no_tab f ≡ true → tabs_loop current f ≡ (current ++ f) ∷ []
unfolding tabs_loop
tabs_loop-last current [] h = rw append-nil refl
tabs_loop-last current (c ∷ f) h =
    let plain : (c == b'\t') ≡ false = ground (arith, h) in
    let tail : no_tab f ≡ true = ground (arith, h) in
    rw (plain, tabs_loop)
      (tabs_loop-last (current ++ c ∷ []) f tail
        ∙ ap (λ x. x ∷ []) (append_assoc current (c ∷ []) f))

-- The fields of a line that joins fields with tabs are these fields, if none holds a tab.
split_tabs-join :
    (f : Bytes) (fs : List Bytes)
    → all no_tab (f ∷ fs) ≡ true
    → split_tabs (join (b'\t' ∷ []) (f ∷ fs)) ≡ f ∷ fs
unfolding split_tabs
split_tabs-join f [] h = ap (tabs_loop []) (append-nil f) ∙ tabs_loop-last [] f (ground (arith, h))
split_tabs-join f (g ∷ gs) h =
    let rest : all no_tab (g ∷ gs) ≡ true = ground (arith, h) in
    tabs_loop-field [] f (join (b'\t' ∷ []) (g ∷ gs)) (ground (arith, h))
    ∙ ap (◌∷◌ f) (split_tabs-join g gs rest)

filled_join : (x y : Bytes) (ys : List Bytes) → is_empty (join (b'\t' ∷ []) (x ∷ y ∷ ys)) ≡ false
filled_join [] y ys = refl
filled_join (c ∷ x) y ys = refl

-- A line of five fields without tabs gives the network of its last three: the name, which is not
-- empty, the signal and the security of the flags. The line is not the heading.
pub network_of_line-join :
    (bssid frequency signal flags ssid : Bytes)
    → all no_tab (bssid ∷ frequency ∷ signal ∷ flags ∷ ssid ∷ []) ≡ true
    → is_empty ssid ≡ false
    → starts_with
        (codes "bssid")
        (join (b'\t' ∷ []) (bssid ∷ frequency ∷ signal ∷ flags ∷ ssid ∷ []))
      ≡ false
    → network_of_line (join (b'\t' ∷ []) (bssid ∷ frequency ∷ signal ∷ flags ∷ ssid ∷ []))
      ≡ some record {
        ssid = ssid;
        signal_dbm = signal_of signal;
        security = security_from_flags flags;
      }
unfolding network_of_line
network_of_line-join bssid frequency signal flags ssid h named heading =
    let fields = bssid ∷ frequency ∷ signal ∷ flags ∷ ssid ∷ [] in
    let filled : is_empty (join (b'\t' ∷ []) fields) ≡ false =
      filled_join bssid frequency (signal ∷ flags ∷ ssid ∷ []) in
    let parts = split_tabs-join bssid (frequency ∷ signal ∷ flags ∷ ssid ∷ []) h in
    simp (filled, heading, parts, named) refl
