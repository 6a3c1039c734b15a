-- ===== src/Mdns/Terminates.antt =====
-- `DecodeDnsName` of chime/src/webd/mdns.cpp comes to an end on every packet.
use virtualchime.Base.{
  ℕ, zero, suc, ◌+◌, ◌*◌, ◌≤◌, ◌≡◌, ◌≢◌, refl, arith, Bool, true, false, [], ◌∷◌, Bytes, length,
  take, drop, ltb, leb, ◌==◌, Bool-cases, inl, inr, ◌⊎◌, if◌then◌else◌, ◌%◌, ◌-◌,
}
use virtualchime.Mdns.{
  Decoded, decoded, malformed, out_of_fuel, Part, packet_end, name_end, bad_part, pointer, label,
  part_at, decode_loop, decode_dns_name, decode_fuel, add_label,
}

length-drop : (n : ℕ) (s : Bytes) → length (drop n s) ≡ length s - n
length-drop zero s = omega arith
length-drop (suc n) [] = omega arith
length-drop (suc n) (c ∷ s) = omega (arith, length-drop n s)

-- A part is in the packet.
data Inside (size : ℕ) (s : Bytes) : Part → Type 0 where
  ends : Inside size s packet_end
  ends_name : Inside size s name_end
  wrong : Inside size s bad_part
  points : (n : ℕ) → suc n ≤ size → Inside size s (pointer n)
  labels : (l : Bytes) → suc (length l) ≤ length s → Inside size s (label l)

length-take-le : (n : ℕ) (s : Bytes) → length (take n s) ≤ length s
length-take-le zero s = omega arith
length-take-le (suc n) [] = omega arith
length-take-le (suc n) (c ∷ s) = omega (arith, length-take-le n s)

part_at-Inside : (size : ℕ) (s : Bytes) → Inside size s (part_at size s)
unfolding part_at
part_at-Inside size [] = ends
part_at-Inside size (n ∷ []) = elim (Bool-cases (n == 0)) [
  | inl e ↦ rw e ends_name
  | inr e ↦ rw e wrong
]
part_at-Inside size (n ∷ b ∷ rest) = elim (Bool-cases (n == 0)) [
  | inl e ↦ rw e ends_name
  | inr e ↦ elim (Bool-cases (leb 192 n)) [
    | inl f ↦ elim (Bool-cases (leb size (n % 64 * 256 + b))) [
      | inl g ↦ rw (e, f, g) wrong
      | inr g ↦ rw (e, f, g) (points _ (ground (arith, g)))
    ]
    | inr f ↦ elim (Bool-cases (ltb (length (b ∷ rest)) n)) [
      | inl g ↦ rw (e, f, g) wrong
      | inr g ↦ rw (e, f, g) (labels _ (omega (arith, length-take-le n (b ∷ rest))))
    ]
  ]
]

Decoded-cases :
    (r : Decoded)
    → r ≢ out_of_fuel
    → (r ≡ malformed) ⊎ ((name : Bytes) × (consumed : ℕ) × (r ≡ decoded name consumed))
Decoded-cases malformed h = inl refl
Decoded-cases (decoded name consumed) h = inr (name, consumed, refl)
Decoded-cases out_of_fuel h = absurd (h refl)

-- The round of the loop for the part.
unfoldable pub round : ℕ → Bytes → (offset depth : ℕ) → Bool → Bytes → ℕ → Part → Decoded
unfolding decode_loop
round fuel packet offset depth jumped name consumed part = elim part [
  | packet_end ↦ decoded name consumed
  | name_end ↦ decoded name (if jumped then consumed else consumed + 1)
  | bad_part ↦ malformed
  | pointer target ↦ elim (ltb 8 (depth + 1)) [
    | true ↦ malformed
    | false ↦
        decode_loop fuel packet target (depth + 1) true name
          (if jumped then consumed else consumed + 2)
  ]
  | label l ↦
      decode_loop fuel packet (offset + (1 + length l)) depth jumped (add_label name l)
        (if jumped then consumed else consumed + (1 + length l))
]

-- `k` jumps are left.
abbrev Enough : ℕ → Bytes → Type 0
Enough fuel packet =
    (k offset depth : ℕ) (jumped : Bool) (name : Bytes) (consumed : ℕ)
    → depth + k ≡ 8
    → k * (length packet + 1) + (length packet - offset) + 1 ≤ fuel
    → decode_loop fuel packet offset depth jumped name consumed ≢ out_of_fuel

round-ends :
    (fuel : ℕ) (packet : Bytes) (k offset depth : ℕ) (jumped : Bool) (name : Bytes) (consumed : ℕ)
    (part : Part)
    → Enough fuel packet
    → Inside (length packet) (drop offset packet) part
    → depth + k ≡ 8
    → k * (length packet + 1) + (length packet - offset) + 1 ≤ suc fuel
    → round fuel packet offset depth jumped name consumed part ≢ out_of_fuel
unfolding round
round-ends fuel packet k offset depth jumped name consumed packet_end again ends d h = ground arith
round-ends fuel packet k offset depth jumped name consumed name_end again ends_name d h =
    ground arith
round-ends fuel packet k offset depth jumped name consumed bad_part again wrong d h = ground arith
round-ends fuel packet zero offset depth jumped name consumed (pointer n) again (points m l) d h =
    let deep : ltb 8 (depth + 1) ≡ true = ground (arith, d) in rw (deep, round) (ground arith)
round-ends fuel packet (suc k) offset depth jumped name consumed (pointer n) again (points m l) d
      h =
    let deep : ltb 8 (depth + 1) ≡ false = ground (arith, d) in
    rw (deep, round)
      (again k n (depth + 1) true name (if jumped then consumed else consumed + 2) (omega arith)
        (omega arith))
round-ends fuel packet k offset depth jumped name consumed (label l) again (labels m i) d h =
    again k (offset + (1 + length l)) depth jumped (add_label name l)
      (if jumped then consumed else consumed + (1 + length l)) d
      (omega (arith, length-drop offset packet, i))

decode_loop-ends : (fuel : ℕ) (packet : Bytes) → Enough fuel packet
unfolding decode_loop round
decode_loop-ends zero packet k offset depth jumped name consumed d h = absurd (omega arith)
decode_loop-ends (suc fuel) packet k offset depth jumped name consumed d h =
    round-ends fuel packet k offset depth jumped name consumed
      (part_at (length packet) (drop offset packet)) (decode_loop-ends fuel packet)
      (part_at-Inside (length packet) (drop offset packet)) d h

-- `DecodeDnsName` returns on every packet, from every offset, however its pointers lie: the loop
-- takes at most nine rounds for each byte of the packet and one more.
pub decode_dns_name-ends :
    (packet : Bytes) (start : ℕ)
    → (decode_dns_name packet start ≡ malformed)
      ⊎ ((name : Bytes) × (consumed : ℕ) × (decode_dns_name packet start ≡ decoded name consumed))
unfolding decode_dns_name
decode_dns_name-ends packet start =
    Decoded-cases (decode_loop (decode_fuel packet) packet start 0 false [] 0)
      (decode_loop-ends (decode_fuel packet) packet 8 start 0 false [] 0 refl (omega arith))
