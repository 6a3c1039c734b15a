-- ===== src/Mdns.antt =====
-- The messages of the mDNS responder, chime/src/webd/mdns.cpp. A packet is the list of its bytes;
-- the loops look at what lies from `offset` on.
pub mod Names
pub mod Terminates
pub mod Query
use virtualchime.Base.{
  ℕ, zero, suc, ◌+◌, ◌*◌, ◌%◌, Bool, true, false, not, ◌&&◌, ◌||◌, List, [], ◌∷◌, ◌++◌, Option,
  none, some, ltb, leb, ◌==◌, if◌then◌else◌, length, is_empty, take, drop, get_or, Bytes, bytes_eq,
  split_at,
}
use virtualchime.Text.{to_lower}

abbrev pub bad_label : Bytes → Bool
bad_label label = is_empty label || ltb 63 (length label)

abbrev pub put_label : Bytes → Option Bytes → Option Bytes
put_label label none = none
put_label label (some encoded) =
    if bad_label label then none else some (length label ∷ (label ++ encoded))

-- The loop of `EncodeDnsName`; none is the empty result.
pub encode_loop : ℕ → Bytes → Option Bytes
encode_loop fuel [] = some (0 ∷ [])
encode_loop zero (c ∷ cs) = none
encode_loop (suc fuel) (c ∷ cs) = elim (split_at b'.' (c ∷ cs)) [
  | none ↦ put_label (c ∷ cs) (some (0 ∷ []))
  | some (label, rest) ↦ put_label label (encode_loop fuel rest)
]

-- `EncodeDnsName`; each round takes at least one byte.
unfoldable pub encode_dns_name : Bytes → Option Bytes
unfolding encode_loop split_at
encode_dns_name fqdn = encode_loop (length fqdn) fqdn

-- The name and the bytes consumed, or false.
pub data Decoded : Type 0 where
  decoded : Bytes → ℕ → Decoded
  malformed : Decoded
  out_of_fuel : Decoded

-- What lies at an offset: the end of the packet or of the name, a pointer, or a label.
pub data Part : Type 0 where
  packet_end name_end bad_part : Part
  pointer : ℕ → Part
  label : Bytes → Part

-- A byte of 192 or more has both upper bits, and its lower six are the upper ones of a pointer.
unfoldable pub part_at : ℕ → Bytes → Part
part_at size [] = packet_end
part_at size (n ∷ []) = if n == 0 then name_end else bad_part
part_at size (n ∷ b ∷ rest) =
    if n == 0
    then name_end
    else if leb 192 n
    then (if leb size (n % 64 * 256 + b) then bad_part else pointer (n % 64 * 256 + b))
    else if ltb (length (b ∷ rest)) n
    then bad_part
    else label (take n (b ∷ rest))

abbrev pub max_depth : ℕ
max_depth = 8

abbrev pub add_label : Bytes → Bytes → Bytes
add_label name l = if is_empty name then l else name ++ b'.' ∷ l

-- The `while` of `DecodeDnsName`.
unfoldable pub decode_loop :
    ℕ → Bytes → (offset depth : ℕ) → (jumped : Bool) → (name : Bytes) → (consumed : ℕ) → Decoded
unfolding part_at
decode_loop zero packet offset depth jumped name consumed = out_of_fuel
decode_loop (suc fuel) packet offset depth jumped name consumed =
    elim (part_at (length packet) (drop offset packet)) [
      | packet_end ↦ decoded name consumed
      | name_end ↦ decoded name (if jumped then consumed else consumed + 1)
      | bad_part ↦ malformed
      | pointer target ↦ elim (ltb max_depth (depth + 1)) [
        | true ↦ malformed
        | false ↦
            decode_loop fuel packet target (depth + 1) true name
              (if jumped then consumed else consumed + 2)
      ]
      | label l ↦
          decode_loop fuel packet (offset + (1 + length l)) depth jumped (add_label name l)
            (if jumped then consumed else consumed + (1 + length l))
    ]

-- A jump costs one of eight, a label at least one byte of the packet.
abbrev pub decode_fuel : Bytes → ℕ
decode_fuel packet = 9 * (length packet + 1)

-- `DecodeDnsName` with the depth 0.
unfoldable pub decode_dns_name : Bytes → ℕ → Decoded
unfolding decode_loop
decode_dns_name packet start = decode_loop (decode_fuel packet) packet start 0 false [] 0

abbrev pub word_at : Bytes → ℕ → ℕ
word_at packet i = get_or packet i 0 * 256 + get_or packet (i + 1) 0

abbrev pub type_a : ℕ
type_a = 1

abbrev pub type_any : ℕ
type_any = 255

-- The test of a question whose type stands at the offset.
abbrev pub asks_host : Bytes → Bytes → Bytes → ℕ → Bool
unfolding to_lower bytes_eq
asks_host packet target name offset =
    let qtype = word_at packet offset in
    let qclass = word_at packet (offset + 2) in
    (qclass % 32768 == 1)
    && (((qtype == type_a) || (qtype == type_any)) && bytes_eq (to_lower name) target)

-- The `for` of `QueryRequestsHost` over the questions that are left.
unfoldable pub questions_loop : ℕ → Bytes → Bytes → ℕ → Bool
unfolding decode_dns_name asks_host
questions_loop zero packet target offset = false
questions_loop (suc left) packet target offset = elim (decode_dns_name packet offset) [
  | malformed ↦ false
  | out_of_fuel ↦ false
  | decoded name consumed ↦ elim (ltb (length packet) (offset + consumed + 4)) [
    | true ↦ false
    | false ↦ elim (asks_host packet target name (offset + consumed)) [
      | true ↦ true
      | false ↦ questions_loop left packet target (offset + consumed + 4)
    ]
  ]
]

-- `QueryRequestsHost`.
unfoldable pub query_requests_host : Bytes → Bytes → Bool
unfolding questions_loop to_lower
query_requests_host packet host_fqdn =
    if ltb (length packet) 12
    then false
    else questions_loop (word_at packet 4) packet (to_lower host_fqdn) 12

-- `BuildAnswerPacket`, with the four bytes of the address.
unfoldable pub build_answer_packet : Bytes → Bytes → Option Bytes
unfolding encode_dns_name
build_answer_packet fqdn ip_bytes = elim (encode_dns_name fqdn) [
  | none ↦ none
  | some name ↦ some (
      0
      ∷ 0
      ∷ 132
      ∷ 0
      ∷ 0
      ∷ 0
      ∷ 0
      ∷ 1
      ∷ 0
      ∷ 0
      ∷ 0
      ∷ 0
      ∷ (name ++ (0 ∷ 1 ∷ 0 ∷ 1 ∷ 0 ∷ 0 ∷ 0 ∷ 120 ∷ 0 ∷ 4 ∷ ip_bytes)))
]
