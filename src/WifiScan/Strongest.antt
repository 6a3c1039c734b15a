-- ===== src/WifiScan/Strongest.antt =====
-- The strongest network of each name, in `DeduplicateStrongest` of chime/src/webd/wifi_scan.cpp.
pub mod Sorted
use virtualchime.Base.{
  ℕ, Bool, true, false, not, ◌&&◌, ◌||◌, List, [], ◌∷◌, ◌++◌, ◌≡◌, ◌⊎◌, inl, inr, refl, sym, ap,
  ◌∙◌, arith, Option, none, some, map, if◌then◌else◌, is_empty, is_some, Bytes, bytes_eq,
  bytes_eq_iff, bytes_eq_sym, ℤ, ltb_ℤ, leb_ℤ, pos, negsuc, Bool-cases, member, nodup,
}
use virtualchime.WifiScan.{
  WifiNetwork, put_stronger, deduplicate_loop, insert_sorted, sort_networks, deduplicate_strongest,
}

-- The first network with the name.
unfoldable pub find_network : Bytes → List WifiNetwork → Option WifiNetwork
unfolding bytes_eq
find_network name [] = none
find_network name (n ∷ ns) =
    let rest = find_network name ns in if bytes_eq name n.ssid then some n else rest

abbrev stronger : Option WifiNetwork → WifiNetwork → WifiNetwork
stronger none n = n
stronger (some old) n = if ltb_ℤ old.signal_dbm n.signal_dbm then n else old

-- The strongest network with the name, the first of several, if `best` is the one found before.
pub strongest : Bytes → Option WifiNetwork → List WifiNetwork → Option WifiNetwork
unfolding bytes_eq
strongest name best [] = best
strongest name best (n ∷ ns) =
    strongest name (if bytes_eq name n.ssid then some (stronger best n) else best) ns

unfoldable pub names : List WifiNetwork → List Bytes
names [] = []
names (n ∷ ns) = n.ssid ∷ names ns

bytes_eq_same : (a b c : Bytes) → bytes_eq b c ≡ true → bytes_eq a b ≡ bytes_eq a c
bytes_eq_same a b c h = ap (bytes_eq a) ((bytes_eq_iff b c).0 h)

pub bytes_eq_apart : (a b c : Bytes) → bytes_eq b c ≡ false → (bytes_eq a b && bytes_eq a c) ≡ false
bytes_eq_apart a b c h = elim (Bool-cases (bytes_eq a b)) [
  | inr e ↦ simp e refl
  | inl e ↦ let same = (bytes_eq_iff a b).0 e in simp e (rw same h)
]

find-put_stronger :
    (name : Bytes) (n : WifiNetwork) (ns : List WifiNetwork)
    → find_network name (put_stronger n ns) ≡ (
        if bytes_eq name n.ssid
        then some (stronger (find_network name ns) n)
        else find_network name ns)
unfolding find_network put_stronger
find-put_stronger name n [] = refl
find-put_stronger name n (old ∷ rest) =
    let same = bytes_eq_same name n.ssid old.ssid in
    let apart = bytes_eq_apart name n.ssid old.ssid in
    let later = find-put_stronger name n rest in
    elim (Bool-cases (ltb_ℤ old.signal_dbm n.signal_dbm)) [
      | inl e ↦ simp e (ground (arith, same, apart, later))
      | inr e ↦ simp e (ground (arith, same, apart, later))
    ]

names-put_stronger :
    (name : Bytes) (n : WifiNetwork) (ns : List WifiNetwork)
    → member name (names (put_stronger n ns)) ≡ (bytes_eq name n.ssid || member name (names ns))
unfolding names put_stronger member
names-put_stronger name n [] = refl
names-put_stronger name n (old ∷ rest) =
    let same = bytes_eq_same name n.ssid old.ssid in
    let apart = bytes_eq_apart name n.ssid old.ssid in
    let later = names-put_stronger name n rest in
    elim (Bool-cases (ltb_ℤ old.signal_dbm n.signal_dbm)) [
      | inl e ↦ simp e (ground (arith, same, apart, later))
      | inr e ↦ simp e (ground (arith, same, apart, later))
    ]

nodup-put_stronger :
    (n : WifiNetwork) (ns : List WifiNetwork)
    → nodup (names ns) ≡ true
    → nodup (names (put_stronger n ns)) ≡ true
unfolding names put_stronger nodup
nodup-put_stronger n [] h = refl
nodup-put_stronger n (old ∷ rest) h =
    let later = nodup-put_stronger n rest in
    let same = (bytes_eq_iff n.ssid old.ssid).0 in
    let new = names-put_stronger old.ssid n rest in
    let turned = bytes_eq_sym old.ssid n.ssid in
    elim (Bool-cases (bytes_eq n.ssid old.ssid)) [
      | inl z ↦ elim (Bool-cases (ltb_ℤ old.signal_dbm n.signal_dbm)) [
        | inl e ↦ simp (z, e) (rw (same z) h)
        | inr e ↦ simp (z, e) h
      ]
      | inr z ↦ simp z (ground (arith, h, later, new, turned, z))
    ]

empty_apart : (a b : Bytes) → is_empty a ≡ false → is_empty b ≡ true → bytes_eq a b ≡ false
unfolding bytes_eq
empty_apart [] b h k = absurd (cc h)
empty_apart (c ∷ a) [] h k = refl
empty_apart (c ∷ a) (d ∷ b) h k = absurd (cc k)

pub find_none : (name : Bytes) → find_network name [] ≡ none
unfolding find_network
find_none name = refl

pub empty_nodup : nodup (names []) ≡ true
unfolding nodup names
empty_nodup = refl

pub deduplicate_loop-find :
    (name : Bytes) (deduped input : List WifiNetwork)
    → is_empty name ≡ false
    → find_network name (deduplicate_loop deduped input)
      ≡ strongest name (find_network name deduped) input
unfolding deduplicate_loop strongest
deduplicate_loop-find name deduped [] h = refl
deduplicate_loop-find name deduped (n ∷ input) h = elim (Bool-cases (is_empty n.ssid)) [
  | inl e ↦
      let other : bytes_eq name n.ssid ≡ false = empty_apart name n.ssid h e in
      simp (e, other) (deduplicate_loop-find name deduped input h)
  | inr e ↦ simp e (
      deduplicate_loop-find name (put_stronger n deduped) input h
      ∙ ap (λ b. strongest name b input) (find-put_stronger name n deduped))
]

pub deduplicate_loop-nodup :
    (deduped input : List WifiNetwork)
    → nodup (names deduped) ≡ true
    → nodup (names (deduplicate_loop deduped input)) ≡ true
unfolding deduplicate_loop
deduplicate_loop-nodup deduped [] h = h
deduplicate_loop-nodup deduped (n ∷ input) h = elim (Bool-cases (is_empty n.ssid)) [
  | inl e ↦ simp e (deduplicate_loop-nodup deduped input h)
  | inr e ↦
      simp e
        (deduplicate_loop-nodup (put_stronger n deduped) input (nodup-put_stronger n deduped h))
]
