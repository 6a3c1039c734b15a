-- ===== src/Audio/Chunks.antt =====
-- The data chunk that `ScalePcmWavInMemory` of chime/src/audio/aplay_audio_player.cpp finds.
use virtualchime.Base.{
  ℕ, zero, suc, ◌+◌, ◌-◌, ◌%◌, ◌≤◌, ◌≡◌, ◌⊎◌, inl, inr, refl, sym, ap, ◌∙◌, arith, Option, none,
  some, Bytes, codes, bytes_eq, length, take, drop, ltb, leb, ◌==◌, false, true, is_empty,
  if◌then◌else◌, Bool-cases, Option-cases,
}
use virtualchime.Audio.{Wav, Scan, found, broken, read_chunk, read_le16, read_le32, scan_chunks}

-- The chunks of a file follow each other from byte 12 on, each with a header of eight bytes, and
-- padded to an even size.
pub data ChunkAt (bytes : Bytes) : ℕ → Type 0 where
  first : ChunkAt bytes 12
  next :
      (cursor behind : ℕ)
      → ChunkAt bytes cursor
      → behind
        ≡ cursor
          + 8
          + read_le32 bytes (cursor + 4)
          + (if read_le32 bytes (cursor + 4) % 2 == 1 then 1 else 0)
      → ChunkAt bytes behind

-- At the offset is the data, of this size, of a chunk named "data", and it is in the file.
pub record DataChunk (bytes : Bytes) (offset n : ℕ) : Type 0 where
  pub header : ℕ
  pub is_chunk : ChunkAt bytes header
  pub is_data : bytes_eq (take 4 (drop header bytes)) (codes "data") ≡ true
  pub starts : offset ≡ header + 8
  pub sized : n ≡ read_le32 bytes (header + 4)
  pub inside : offset + n ≤ length bytes

abbrev pub Within : Bytes → Wav → Type 0
Within bytes wav = (offset n : ℕ) → wav.samples ≡ some (offset, n) → DataChunk bytes offset n

-- The scan comes to an end, and the data it has found is a data chunk of the file.
pub data Scanned (bytes : Bytes) : Scan → Type 0 where
  finds : (wav : Wav) → Within bytes wav → Scanned bytes (found wav)
  stops : {error : Bytes} → is_empty error ≡ false → Scanned bytes (broken error)

wav_of : Wav → Option Wav → Wav
wav_of wav none = wav
wav_of wav (some w) = w

Option-samples : (a b : Wav) → some a ≡ some b → a.samples ≡ b.samples
unfolding wav_of
Option-samples a b e = ap (λ o. (wav_of a o).samples) e

pair_of : Option (ℕ × ℕ) → ℕ × ℕ
pair_of none = (0, 0)
pair_of (some p) = p

Option-pair :
    (bytes : Bytes) (a b c d : ℕ)
    → ◌≡◌ {A = Option (ℕ × ℕ)} (some (a, b)) (some (c, d))
    → DataChunk bytes a b
    → DataChunk bytes c d
unfolding pair_of
Option-pair bytes a b c d e h =
    let first_same : a ≡ c = ap (λ o. (pair_of o).0) e in
    let second_same : b ≡ d = ap (λ o. (pair_of o).1) e in
    record {
      header = h.header;
      is_chunk = h.is_chunk;
      is_data = h.is_data;
      starts = sym first_same ∙ h.starts;
      sized = sym second_same ∙ h.sized;
      inside = rw (← first_same, ← second_same) h.inside;
    }

read_chunk-samples :
    (bytes id : Bytes) (offset n : ℕ) (wav seen : Wav)
    → read_chunk bytes id offset n wav ≡ some seen
    → (seen.samples ≡ wav.samples)
      ⊎ ((bytes_eq id (codes "data") ≡ true) × (seen.samples ≡ some (offset, n)))
unfolding read_chunk
read_chunk-samples bytes id offset n wav seen e = elim (Bool-cases (bytes_eq id (codes "fmt "))) [
  | inl f ↦ elim (Bool-cases (ltb n 16)) [
    | inl g ↦ (let bad : none ≡ some seen = simp (f, g) at e in absurd (cc bad))
    | inr g ↦
        (let same : some
                (record wav { fmt = some (read_le16 bytes offset, read_le16 bytes (offset + 14)) })
              ≡ some seen =
            simp (f, g) at e in
          inl (sym (Option-samples _ seen same)))
  ]
  | inr f ↦ elim (Bool-cases (bytes_eq id (codes "data"))) [
    | inl g ↦
        (let same : some (record wav { samples = some (offset, n) }) ≡ some seen =
            simp (f, g) at e in
          inr (g, sym (Option-samples _ seen same)))
    | inr g ↦
        (let same : some wav ≡ some seen = simp (f, g) at e in
          inl (sym (Option-samples wav seen same)))
  ]
]

read_chunk-Within :
    (bytes id : Bytes) (offset n : ℕ) (wav seen : Wav)
    → (bytes_eq id (codes "data") ≡ true → DataChunk bytes offset n)
    → Within bytes wav
    → read_chunk bytes id offset n wav ≡ some seen
    → Within bytes seen
read_chunk-Within bytes id offset n wav seen h w e =
    elim (read_chunk-samples bytes id offset n wav seen e) [
      | inl same ↦ (λ a b s. w a b (sym same ∙ s))
      | inr (named, new) ↦ (λ a b s. Option-pair bytes offset n a b (sym new ∙ s) (h named))
    ]

pub scan_chunks-Scanned :
    (fuel : ℕ) (bytes : Bytes) (cursor : ℕ) (wav : Wav)
    → suc (length bytes - cursor) ≤ fuel
    → 8 ≤ length bytes
    → ChunkAt bytes cursor
    → Within bytes wav
    → Scanned bytes (scan_chunks fuel bytes cursor wav)
unfolding scan_chunks
scan_chunks-Scanned zero bytes cursor wav h k at w = absurd (omega arith)
scan_chunks-Scanned (suc fuel) bytes cursor wav h k at w =
    let size = length bytes in
    let n = read_le32 bytes (cursor + 4) in
    let start = cursor + 8 in
    let padding : ℕ = if n % 2 == 1 then 1 else 0 in
    let id = take 4 (drop cursor bytes) in
    elim (Bool-cases (leb cursor (size - 8))) [
      | inr e ↦ rw (e, scan_chunks) (finds wav w)
      | inl e ↦ elim (Bool-cases (ltb (size - start) n)) [
        | inl f ↦ rw (e, f, scan_chunks) (stops refl)
        | inr f ↦ elim (Option-cases (read_chunk bytes id start n wav)) [
          | inl r ↦ rw (e, f, r, scan_chunks) (stops refl)
          | inr (seen, r) ↦ elim (Bool-cases (ltb (size - (start + n)) padding)) [
            | inl p ↦ rw (e, f, r, p, scan_chunks) (stops refl)
            | inr p ↦
                let inside : start + n ≤ size = ground (arith, e, f, k) in
                let chunk : bytes_eq id (codes "data") ≡ true → DataChunk bytes start n = λ named.
                  record {
                    header = cursor;
                    is_chunk = at;
                    is_data = named;
                    starts = refl;
                    sized = refl;
                    inside = inside;
                  } in
                rw (e, f, r, p, scan_chunks)
                  (scan_chunks-Scanned fuel bytes (start + n + padding) seen
                    (omega (arith, h, inside)) k (ChunkAt.next cursor _ at refl)
                    (read_chunk-Within bytes id start n wav seen chunk w r))
          ]
        ]
      ]
    ]
