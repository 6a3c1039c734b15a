-- ===== src/Mdns/Names.antt =====
-- `DecodeDnsName` on what `EncodeDnsName` of chime/src/webd/mdns.cpp wrote.
use virtualchime.Base.{
  ℕ, zero, suc, ◌+◌, ◌≤◌, ◌≡◌, refl, sym, ap, ◌∙◌, arith, Bool, true, false, not, ◌&&◌, List, [],
  ◌∷◌, ◌++◌, append-nil, append_assoc, some, Bytes, length, length-append, take, drop, ltb, leb,
  ◌==◌, all, is_empty, contains, split_at-append, split_at-eq-none,
}
use virtualchime.Text.{join, join_tail}
use virtualchime.Mdns.{
  decoded, name_end, label, part_at, decode_loop, decode_dns_name, decode_fuel, add_label,
  encode_loop, encode_dns_name, bad_label,
}
use virtualchime.Mdns.Terminates.{round}

-- A label of 1 to 63 bytes without a dot.
abbrev pub good_label : Bytes → Bool
good_label l = not (bad_label l) && not (contains b'.' l)

-- The bytes of a name on the wire.
pub wire : List Bytes → Bytes
wire [] = 0 ∷ []
wire (l ∷ ls) = length l ∷ (l ++ wire ls)

abbrev pub dotted : List Bytes → Bytes
dotted ls = join (b'.' ∷ []) ls

encode_loop-dotted :
    (fuel : ℕ) (ls : List Bytes)
    → length (dotted ls) ≤ fuel
    → all good_label ls ≡ true
    → encode_loop fuel (dotted ls) ≡ some (wire ls)
unfolding encode_loop wire
encode_loop-dotted fuel [] h g = refl
encode_loop-dotted fuel ([] ∷ ls) h g = absurd (cc g)
encode_loop-dotted zero ((c ∷ l) ∷ ls) h g = absurd (omega arith)
encode_loop-dotted (suc fuel) ((c ∷ l) ∷ []) h g =
    let good : bad_label (c ∷ l) ≡ false = ground (arith, g) in
    let clear : contains b'.' (c ∷ l) ≡ false = ground (arith, g) in
    rw (append-nil l) (rw (split_at-eq-none b'.' (c ∷ l) clear, encode_loop) (rw good refl))
encode_loop-dotted (suc fuel) ((c ∷ l) ∷ m ∷ ls) h g =
    let good : bad_label (c ∷ l) ≡ false = ground (arith, g) in
    let clear : contains b'.' (c ∷ l) ≡ false = ground (arith, g) in
    let later =
      encode_loop-dotted fuel (m ∷ ls)
        (omega (arith, length-append (c ∷ l) (b'.' ∷ dotted (m ∷ ls)))) (ground (arith, g)) in
    rw (split_at-append b'.' (c ∷ l) (dotted (m ∷ ls)) clear, encode_loop) (rw (later, good) refl)

drop-nil : (n : ℕ) → drop {A = ℕ} n [] ≡ []
drop-nil zero = refl
drop-nil (suc n) = refl

drop-drop : (a b : ℕ) (s : Bytes) → drop (a + b) s ≡ drop b (drop a s)
drop-drop zero b s = let plus : 0 + b ≡ b = omega arith in ap (λ n. drop n s) plus
drop-drop (suc a) b [] = drop-nil (suc a + b) ∙ sym (drop-nil b)
drop-drop (suc a) b (c ∷ s) =
    let plus : suc a + b ≡ suc (a + b) = omega arith in
    ap (λ n. drop n (c ∷ s)) plus ∙ drop-drop a b s

pub drop-append : (a b : Bytes) → drop (length a) (a ++ b) ≡ b
drop-append [] b = refl
drop-append (x ∷ a) b = drop-append a b

take-append : (a b : Bytes) → take (length a) (a ++ b) ≡ a
take-append [] b = refl
take-append (x ∷ a) b = ap (λ t. x ∷ t) (take-append a b)

part_at-label :
    (size : ℕ) (l more : Bytes)
    → bad_label l ≡ false
    → part_at size (length l ∷ (l ++ more)) ≡ label l
unfolding part_at
part_at-label size [] more h = absurd (cc h)
part_at-label size (x ∷ l) more h =
    let short : leb 192 (suc (length l)) ≡ false = ground (arith, h) in
    let fits : ltb (suc (length (l ++ more))) (suc (length l)) ≡ false =
      ground (arith, length-append l more) in
    let some_bytes : (suc (length l) == 0) ≡ false = ground arith in
    rw (some_bytes, short, fits) (ap (λ t. label (x ∷ t)) (take-append l more))

part_at-end : (size : ℕ) (rest : Bytes) → part_at size (0 ∷ rest) ≡ name_end
unfolding part_at
part_at-end size [] = refl
part_at-end size (r ∷ rest) = refl

drop-one : (n : ℕ) (l more : Bytes) → drop (1 + length l) (n ∷ (l ++ more)) ≡ more
drop-one n l more =
    let plus : 1 + length l ≡ suc (length l) = omega arith in
    ap (λ k. drop k (n ∷ (l ++ more))) plus ∙ drop-append l more

pub all_labels : Bytes → List Bytes → Bytes
all_labels name [] = name
all_labels name (l ∷ ls) = all_labels (add_label name l) ls

decode_loop-wire :
    (fuel : ℕ) (ls : List Bytes) (packet rest name : Bytes) (offset consumed : ℕ)
    → suc (length ls) ≤ fuel
    → all good_label ls ≡ true
    → drop offset packet ≡ wire ls ++ rest
    → decode_loop fuel packet offset 0 false name consumed
      ≡ decoded (all_labels name ls) (consumed + length (wire ls))
unfolding decode_loop wire all_labels round
decode_loop-wire zero ls packet rest name offset consumed h g e = absurd (omega arith)
decode_loop-wire (suc fuel) [] packet rest name offset consumed h g e =
    ap (λ t. round fuel packet offset 0 false name consumed (part_at (length packet) t)) e
    ∙ ap (round fuel packet offset 0 false name consumed) (part_at-end (length packet) rest)
decode_loop-wire (suc fuel) (l ∷ ls) packet rest name offset consumed h g e =
    let good : bad_label l ≡ false = ground (arith, g) in
    let text : (length l ∷ (l ++ wire ls)) ++ rest ≡ length l ∷ (l ++ (wire ls ++ rest)) =
      ap (λ t. length l ∷ t) (append_assoc l (wire ls) rest) in
    let behind : drop (offset + (1 + length l)) packet ≡ wire ls ++ rest =
      drop-drop offset (1 + length l) packet
      ∙ ap (drop (1 + length l)) (e ∙ text)
      ∙ drop-one (length l) l (wire ls ++ rest) in
    let total : consumed + (1 + length l) + length (wire ls)
        ≡ consumed + suc (length (l ++ wire ls)) =
      omega (arith, length-append l (wire ls)) in
    ap (λ t. round fuel packet offset 0 false name consumed (part_at (length packet) t)) (e ∙ text)
    ∙ ap (round fuel packet offset 0 false name consumed)
        (part_at-label (length packet) l (wire ls ++ rest) good)
    ∙ decode_loop-wire fuel ls packet rest (add_label name l) (offset + (1 + length l))
        (consumed + (1 + length l)) (omega arith) (ground (arith, g)) behind
    ∙ ap (decoded (all_labels (add_label name l) ls)) total

all_labels-join :
    (name : Bytes) (ls : List Bytes)
    → is_empty name ≡ false
    → all_labels name ls ≡ name ++ join_tail (b'.' ∷ []) ls
unfolding all_labels
all_labels-join name [] h = sym (append-nil name)
all_labels-join [] (l ∷ ls) h = absurd (cc h)
all_labels-join (c ∷ name) (l ∷ ls) h =
    all_labels-join ((c ∷ name) ++ b'.' ∷ l) ls refl
    ∙ append_assoc (c ∷ name) (b'.' ∷ l) (join_tail (b'.' ∷ []) ls)

all_labels-dotted : (ls : List Bytes) → all good_label ls ≡ true → all_labels [] ls ≡ dotted ls
unfolding all_labels
all_labels-dotted [] g = refl
all_labels-dotted ([] ∷ ls) g = absurd (cc g)
all_labels-dotted ((c ∷ l) ∷ ls) g = all_labels-join (c ∷ l) ls refl

length-wire : (ls : List Bytes) → suc (length ls) ≤ length (wire ls)
unfolding wire
length-wire [] = omega arith
length-wire (l ∷ ls) = omega (arith, length-wire ls, length-append l (wire ls))

-- A name of labels of 1 to 63 bytes without dots, joined by dots, is encoded, and wherever its
-- encoding stands in a packet, `DecodeDnsName` reads the name there and consumes the encoding.
pub decode_dns_name-encode_dns_name :
    (labels : List Bytes) (before rest : Bytes)
    → all good_label labels ≡ true
    → (encoded : Bytes) × (encode_dns_name (dotted labels) ≡ some encoded)
      × (decode_dns_name (before ++ (encoded ++ rest)) (length before)
          ≡ decoded (dotted labels) (length encoded))
unfolding encode_dns_name decode_dns_name
decode_dns_name-encode_dns_name labels before rest g =
    let packet = before ++ (wire labels ++ rest) in
    let none_before : 0 + length (wire labels) ≡ length (wire labels) = omega arith in
    let enough : suc (length labels) ≤ decode_fuel packet = omega (
      arith,
      length-wire labels,
      length-append before (wire labels ++ rest),
      length-append (wire labels) rest,
    ) in
    (
      wire labels,
      encode_loop-dotted (length (dotted labels)) labels (omega arith) g,
      decode_loop-wire (decode_fuel packet) labels packet rest [] (length before) 0 enough g
            (drop-append before (wire labels ++ rest))
          ∙ ap (decoded (all_labels [] labels)) none_before
          ∙ ap (λ name. decoded name (length (wire labels))) (all_labels-dotted labels g),
    )
