-- ===== src/WifiScan/Strongest/Sorted.antt =====
-- What `DeduplicateStrongest` of chime/src/webd/wifi_scan.cpp returns, behind its sort.
use virtualchime.Base.{
  Bool, true, false, not, ◌&&◌, ◌||◌, List, [], ◌∷◌, ◌≡◌, refl, ap, ◌∙◌, arith, none, some,
  if◌then◌else◌, is_empty, Bytes, bytes_eq, bytes_eq_sym, ℤ, ltb_ℤ, pos, negsuc, member, nodup,
}
use virtualchime.WifiScan.{
  WifiNetwork, deduplicate_loop, insert_sorted, sort_networks, deduplicate_strongest,
}
use virtualchime.WifiScan.Strongest.{
  find_network, strongest, names, bytes_eq_apart, find_none, empty_nodup, deduplicate_loop-find,
  deduplicate_loop-nodup,
}

names-insert_sorted :
    (name : Bytes) (n : WifiNetwork) (ns : List WifiNetwork)
    → member name (names (insert_sorted n ns)) ≡ (bytes_eq name n.ssid || member name (names ns))
unfolding names insert_sorted member
names-insert_sorted name n [] = refl
names-insert_sorted name n (first ∷ rest) = ground (arith, names-insert_sorted name n rest)

nodup-insert_sorted :
    (n : WifiNetwork) (ns : List WifiNetwork)
    → nodup (names ns) ≡ true
    → member n.ssid (names ns) ≡ false
    → nodup (names (insert_sorted n ns)) ≡ true
unfolding names insert_sorted nodup member
nodup-insert_sorted n [] h k = refl
nodup-insert_sorted n (first ∷ rest) h k = ground (
  arith,
  nodup-insert_sorted n rest,
  names-insert_sorted first.ssid n rest,
  bytes_eq_sym first.ssid n.ssid,
)

find-insert_sorted :
    (name : Bytes) (n : WifiNetwork) (ns : List WifiNetwork)
    → member n.ssid (names ns) ≡ false
    → find_network name (insert_sorted n ns)
      ≡ (if bytes_eq name n.ssid then some n else find_network name ns)
unfolding find_network insert_sorted names member
find-insert_sorted name n [] h = refl
find-insert_sorted name n (first ∷ rest) h =
    let apart = bytes_eq_apart name n.ssid first.ssid in
    ground (arith, apart, find-insert_sorted name n rest)

names-sort_networks :
    (name : Bytes) (ns : List WifiNetwork)
    → member name (names (sort_networks ns)) ≡ member name (names ns)
unfolding names sort_networks member
names-sort_networks name [] = refl
names-sort_networks name (n ∷ ns) =
    ground (arith, names-insert_sorted name n (sort_networks ns), names-sort_networks name ns)

sort_networks-nodup :
    (ns : List WifiNetwork) → nodup (names ns) ≡ true → nodup (names (sort_networks ns)) ≡ true
unfolding names sort_networks nodup
sort_networks-nodup [] h = refl
sort_networks-nodup (n ∷ ns) h =
    let there = names-sort_networks n.ssid ns in
    nodup-insert_sorted n (sort_networks ns) (sort_networks-nodup ns (ground (arith, h)))
      (ground (arith, h, there))

sort_networks-find :
    (name : Bytes) (ns : List WifiNetwork)
    → nodup (names ns) ≡ true
    → find_network name (sort_networks ns) ≡ find_network name ns
unfolding names sort_networks nodup find_network
sort_networks-find name [] h = refl
sort_networks-find name (n ∷ ns) h =
    let there = names-sort_networks n.ssid ns in
    find-insert_sorted name n (sort_networks ns) (ground (arith, h, there))
    ∙ ap (λ o. if bytes_eq name n.ssid then some n else o)
        (sort_networks-find name ns (ground (arith, h)))

-- The signals do not rise from one network to the next.
abbrev pub falling : List WifiNetwork → Bool
falling [] = true
falling (a ∷ []) = true
falling (a ∷ b ∷ ns) = not (ltb_ℤ a.signal_dbm b.signal_dbm) && falling (b ∷ ns)

ltb_ℤ-asym : (a b : ℤ) → ltb_ℤ a b ≡ true → ltb_ℤ b a ≡ false
ltb_ℤ-asym (pos a) (pos b) h = ground arith
ltb_ℤ-asym (pos a) (negsuc b) h = ground arith
ltb_ℤ-asym (negsuc a) (pos b) h = ground arith
ltb_ℤ-asym (negsuc a) (negsuc b) h = ground arith

falling-insert_sorted :
    (n : WifiNetwork) (ns : List WifiNetwork)
    → falling ns ≡ true
    → falling (insert_sorted n ns) ≡ true
unfolding insert_sorted
falling-insert_sorted n [] h = refl
falling-insert_sorted n (a ∷ []) h = ground (arith, ltb_ℤ-asym n.signal_dbm a.signal_dbm)
falling-insert_sorted n (a ∷ b ∷ ns) h = ground (
  arith,
  falling-insert_sorted n (b ∷ ns),
  ltb_ℤ-asym n.signal_dbm a.signal_dbm,
  ltb_ℤ-asym n.signal_dbm b.signal_dbm,
)

sort_networks-falling : (ns : List WifiNetwork) → falling (sort_networks ns) ≡ true
unfolding sort_networks
sort_networks-falling [] = refl
sort_networks-falling (n ∷ ns) =
    falling-insert_sorted n (sort_networks ns) (sort_networks-falling ns)

-- For every list of networks: the result names no network twice, its signals do not rise, and for
-- a name that is not empty it holds the first of the strongest networks with that name, if there
-- is one.
pub deduplicate_strongest_lem :
    (input : List WifiNetwork) (name : Bytes)
    → is_empty name ≡ false
    → (nodup (names (deduplicate_strongest input)) ≡ true)
      × ((falling (deduplicate_strongest input) ≡ true)
          × (find_network name (deduplicate_strongest input) ≡ strongest name none input))
unfolding deduplicate_strongest
deduplicate_strongest_lem input name h =
    let distinct = deduplicate_loop-nodup [] input (empty_nodup) in
    (
      sort_networks-nodup (deduplicate_loop [] input) distinct,
      (
        sort_networks-falling (deduplicate_loop [] input),
        sort_networks-find name (deduplicate_loop [] input) distinct
            ∙ deduplicate_loop-find name [] input h
            ∙ ap (λ b. strongest name b input) (find_none name),
      ),
    )
