-- ===== src/Examples/Devices.antt =====
-- Concrete packets of the responder, and a concrete sound.
use virtualchime.Base.{
  ℕ, true, List, [], ◌∷◌, ◌++◌, ◌≡◌, ◌⊎◌, refl, some, Bytes, codes, length, all, ℤ, pos,
}
use virtualchime.Text.{to_lower}
use virtualchime.Mdns.{decoded, malformed, decode_dns_name, encode_dns_name, query_requests_host}
use virtualchime.Mdns.Terminates.{decode_dns_name-ends}
use virtualchime.Mdns.Names.{good_label, dotted, decode_dns_name-encode_dns_name}
use virtualchime.Mdns.Query.{question_header, ask_address, query_requests_host-question}
use virtualchime.Audio.{scale_pcm_wav}
use virtualchime.Audio.Scaled.{ScaleEnds, scale_pcm_wav-ScaleEnds}
use virtualchime.Audio.Player.{Player, new_player, enter}
use virtualchime.Audio.Player.Flag.{Happens, Reached, HeldOnce, Reached-HeldOnce}

-- A pointer to itself.
abbrev looping : Bytes
looping = 192 ∷ 0 ∷ []

decode_dns_name-ends_example :
    (decode_dns_name looping 0 ≡ malformed)
    ⊎ ((name : Bytes) × (consumed : ℕ) × (decode_dns_name looping 0 ≡ decoded name consumed))
decode_dns_name-ends_example = decode_dns_name-ends looping 0

abbrev chime_local : List Bytes
chime_local = codes "chime" ∷ codes "local" ∷ []

labels-good : all good_label chime_local ≡ true
labels-good = refl

abbrev behind : Bytes
behind = 0 ∷ 1 ∷ 0 ∷ 1 ∷ []

decode_dns_name-encode_dns_name_example :
    (encoded : Bytes) × (encode_dns_name (dotted chime_local) ≡ some encoded)
    × (decode_dns_name ((1 ∷ 2 ∷ []) ++ (encoded ++ behind)) 2
        ≡ decoded (dotted chime_local) (length encoded))
decode_dns_name-encode_dns_name_example =
    decode_dns_name-encode_dns_name chime_local (1 ∷ 2 ∷ []) behind labels-good

same_host : to_lower (dotted chime_local) ≡ to_lower (codes "Chime.Local")
unfolding to_lower
same_host = refl

query_requests_host-question_example :
    (encoded : Bytes) × (encode_dns_name (dotted chime_local) ≡ some encoded)
    × (query_requests_host
          ((question_header (18, 52) (0, 0) (0, 0) ++ encoded) ++ ask_address)
          (codes "Chime.Local")
        ≡ true)
query_requests_host-question_example =
    query_requests_host-question chime_local (codes "Chime.Local") (18, 52) (0, 0) (0, 0)
      labels-good same_host

-- A sound of two samples.
abbrev wav : Bytes
wav =
    codes "RIFF"
    ++ (40 ∷ 0 ∷ 0 ∷ 0 ∷ codes "WAVEfmt "
        ++ (16
              ∷ 0
              ∷ 0
              ∷ 0
              ∷ 1
              ∷ 0
              ∷ 1
              ∷ 0
              ∷ 64
              ∷ 31
              ∷ 0
              ∷ 0
              ∷ 128
              ∷ 62
              ∷ 0
              ∷ 0
              ∷ 2
              ∷ 0
              ∷ 16
              ∷ 0
              ∷ codes "data"
            ++ (4 ∷ 0 ∷ 0 ∷ 0 ∷ 1 ∷ 2 ∷ 3 ∷ 4 ∷ [])))

abbrev silence : ℤ → ℤ
silence sample = pos 0

scale_pcm_wav-ScaleEnds_example : ScaleEnds silence wav (scale_pcm_wav silence wav)
scale_pcm_wav-ScaleEnds_example = scale_pcm_wav-ScaleEnds silence wav

-- A call comes in, and a second one while the first is at its checks.
abbrev called : Player
called = enter (enter new_player)

Reached-HeldOnce_example : HeldOnce called
Reached-HeldOnce_example =
    Reached-HeldOnce called (Reached.next (Reached.next Reached.new Happens.enters) Happens.enters)
