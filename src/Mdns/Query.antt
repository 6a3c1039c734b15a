-- ===== src/Mdns/Query.antt =====
-- `QueryRequestsHost` of chime/src/webd/mdns.cpp on a question for the host.
use virtualchime.Base.{
  ℕ, suc, ◌+◌, ◌*◌, ◌≡◌, refl, sym, ap, ◌∙◌, arith, true, false, List, [], ◌∷◌, ◌++◌, some, Bytes,
  length, length-append, append_assoc, ltb, get_or, all, bytes_eq, bytes_eq_refl,
}
use virtualchime.Text.{to_lower}
use virtualchime.Mdns.{
  decoded, encode_dns_name, decode_dns_name, word_at, asks_host, questions_loop,
  query_requests_host,
}
use virtualchime.Mdns.Names.{good_label, dotted, decode_dns_name-encode_dns_name}

get_or-append : (a b : Bytes) (i : ℕ) → get_or (a ++ b) (length a + i) 0 ≡ get_or b i 0
get_or-append [] b i = let plus : 0 + i ≡ i = omega arith in ap (λ n. get_or b n 0) plus
get_or-append (x ∷ a) b i =
    let plus : suc (length a) + i ≡ suc (length a + i) = omega arith in
    ap (λ n. get_or (x ∷ (a ++ b)) n 0) plus ∙ get_or-append a b i

-- The header of a query with one question, and the type A and the class IN behind the name.
abbrev pub question_header : (id flags more : ℕ × ℕ) → Bytes
question_header (i, j) (f, g) (m, n) = i ∷ j ∷ f ∷ g ∷ 0 ∷ 1 ∷ m ∷ n ∷ 0 ∷ 0 ∷ 0 ∷ 0 ∷ []

abbrev pub ask_address : Bytes
ask_address = 0 ∷ 1 ∷ 0 ∷ 1 ∷ []

word_at-behind : (a b : Bytes) (i : ℕ) → word_at (a ++ b) (length a + i) ≡ word_at b i
word_at-behind a b i =
    let plus : length a + i + 1 ≡ length a + (i + 1) = omega arith in
    ap (λ x. x * 256 + get_or (a ++ b) (length a + i + 1) 0) (get_or-append a b i)
    ∙ ap (λ n. get_or b i 0 * 256 + get_or (a ++ b) n 0) plus
    ∙ ap (λ x. get_or b i 0 * 256 + x) (get_or-append a b (i + 1))

asks_host-behind :
    (a target name : Bytes)
    → to_lower name ≡ target
    → asks_host (a ++ ask_address) target name (length a) ≡ true
unfolding asks_host
asks_host-behind a target name h =
    let none_more : length a ≡ length a + 0 = omega arith in
    let qtype : word_at (a ++ ask_address) (length a) ≡ 1 =
      ap (word_at (a ++ ask_address)) none_more ∙ word_at-behind a ask_address 0 in
    let qclass : word_at (a ++ ask_address) (length a + 2) ≡ 1 = word_at-behind a ask_address 2 in
    let same : bytes_eq (to_lower name) target ≡ true = rw h (bytes_eq_refl target) in
    rw (qclass, qtype, same) refl

question-requested :
    (a name target encoded : Bytes) (left : ℕ)
    → decode_dns_name ((a ++ encoded) ++ ask_address) (length a) ≡ decoded name (length encoded)
    → to_lower name ≡ target
    → questions_loop (suc left) ((a ++ encoded) ++ ask_address) target (length a) ≡ true
unfolding questions_loop
question-requested a name target encoded left d h =
    let packet = (a ++ encoded) ++ ask_address in
    let here : length a + length encoded ≡ length (a ++ encoded) = sym (length-append a encoded) in
    let fits : ltb (length packet) (length a + length encoded + 4) ≡ false =
      ground (arith, length-append (a ++ encoded) ask_address, length-append a encoded) in
    let asks : asks_host packet target name (length a + length encoded) ≡ true =
      ap (asks_host packet target name) here ∙ asks_host-behind (a ++ encoded) target name h in
    rw (d, questions_loop) (rw (fits, asks) refl)

-- `QueryRequestsHost` returns true for a query with one question, for the address of a name that is
-- the host's but for the case of its letters, whatever its id, its flags and its other counts are.
pub query_requests_host-question :
    (labels : List Bytes) (host : Bytes) (id flags more : ℕ × ℕ)
    → all good_label labels ≡ true
    → to_lower (dotted labels) ≡ to_lower host
    → (encoded : Bytes) × (encode_dns_name (dotted labels) ≡ some encoded)
      × (query_requests_host ((question_header id flags more ++ encoded) ++ ask_address) host
          ≡ true)
unfolding query_requests_host
query_requests_host-question labels host (i, j) (f, g) (m, n) good same =
    let header = question_header (i, j) (f, g) (m, n) in
    let (encoded, encodes, decodes) =
      decode_dns_name-encode_dns_name labels header ask_address good in
    let whole : decode_dns_name ((header ++ encoded) ++ ask_address) 12
        ≡ decoded (dotted labels) (length encoded) =
      ap (λ p. decode_dns_name p 12) (append_assoc header encoded ask_address) ∙ decodes in
    let requested =
      question-requested header (dotted labels) (to_lower host) encoded 0 whole same in
    let long : ltb (length ((header ++ encoded) ++ ask_address)) 12 ≡ false =
      ground (arith, length-append encoded ask_address) in
    (encoded, encodes, rw long requested)
