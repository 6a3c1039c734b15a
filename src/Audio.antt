-- ===== src/Audio.antt =====
-- The software volume and the player of chime/src/audio/aplay_audio_player.cpp. `scale` is
-- `std::lround` of a sample times the gain.
pub mod Chunks
pub mod Scaled
pub mod Player
use virtualchime.Base.{
  ℕ, zero, suc, ◌+◌, ◌-◌, ◌*◌, ◌/◌, ◌%◌, Bool, true, false, not, ◌&&◌, ◌||◌, List, [], ◌∷◌, ◌++◌,
  Option, none, some, ltb, leb, ◌==◌, if◌then◌else◌, length, take, drop, set, get_or, Bytes, codes,
  bytes_eq, ℤ, pos, negsuc, leb_ℤ, ◌⊎◌, inl, inr,
}
use virtualchime.Text.{nat_to_string}

-- `ReadLe16` and `ReadLe32`.
abbrev pub read_le16 : Bytes → ℕ → ℕ
read_le16 bytes offset = get_or bytes offset 0 + get_or bytes (offset + 1) 0 * 256

abbrev pub read_le32 : Bytes → ℕ → ℕ
read_le32 bytes offset =
    get_or bytes offset 0
    + get_or bytes (offset + 1) 0 * 256
    + get_or bytes (offset + 2) 0 * 65536
    + get_or bytes (offset + 3) 0 * 16777216

-- `WriteLe16`.
unfoldable pub write_le16 : Bytes → ℕ → ℕ → Bytes
write_le16 bytes offset value =
    set (set bytes offset (value % 256)) (offset + 1) (value / 256 % 256)

-- What the chunks have told: the format and the bits per sample, and where the data is.
pub record Wav : Type 0 where
  pub fmt : Option (ℕ × ℕ)
  pub samples : Option (ℕ × ℕ)

pub data Scan : Type 0 where
  found : Wav → Scan
  broken : Bytes → Scan
  out_of_fuel : Scan

-- A chunk with its data at the offset; none for "invalid fmt chunk".
unfoldable pub read_chunk : Bytes → (id : Bytes) → (chunk_data chunk_size : ℕ) → Wav → Option Wav
unfolding bytes_eq
read_chunk bytes id chunk_data chunk_size wav =
    if bytes_eq id (codes "fmt ")
    then (if ltb chunk_size 16
        then none
        else some record wav {
          fmt = some (read_le16 bytes chunk_data, read_le16 bytes (chunk_data + 14));
        })
    else if bytes_eq id (codes "data")
    then some record wav { samples = some (chunk_data, chunk_size) }
    else some wav

-- The `while` over the chunks.
unfoldable pub scan_chunks : ℕ → Bytes → ℕ → Wav → Scan
unfolding read_chunk
scan_chunks zero bytes cursor wav = out_of_fuel
scan_chunks (suc fuel) bytes cursor wav =
    let size = length bytes in
    let chunk_size = read_le32 bytes (cursor + 4) in
    let chunk_data = cursor + 8 in
    let chunk_end = chunk_data + chunk_size in
    let padding = if chunk_size % 2 == 1 then 1 else 0 in
    elim (leb cursor (size - 8)) [
      | false ↦ found wav
      | true ↦ elim (ltb (size - chunk_data) chunk_size) [
        | true ↦ broken (codes "corrupt wav chunk size")
        | false ↦ elim (read_chunk bytes (take 4 (drop cursor bytes)) chunk_data chunk_size wav) [
          | none ↦ broken (codes "invalid fmt chunk")
          | some seen ↦ elim (ltb (size - chunk_end) padding) [
            | true ↦ broken (codes "corrupt wav chunk padding")
            | false ↦ scan_chunks fuel bytes (chunk_end + padding) seen
          ]
        ]
      ]
    ]

-- `static_cast<int16_t>` of a `uint16_t`, and back.
abbrev pub to_int16 : ℕ → ℤ
to_int16 n = if ltb n 32768 then pos n else negsuc (65535 - n)

abbrev pub to_uint16 : ℤ → ℕ
to_uint16 (pos n) = n
to_uint16 (negsuc n) = 65535 - n

-- `std::clamp`.
abbrev pub clamp : ℤ → ℤ → ℤ → ℤ
clamp value lo hi = if not (leb_ℤ lo value) then lo else if not (leb_ℤ value hi) then hi else value

-- `sample - 128`, and `clamped + 128`.
abbrev pub centered : ℕ → ℤ
centered n = if leb 128 n then pos (n - 128) else negsuc (127 - n)

abbrev pub uncentered : ℤ → ℕ
uncentered (pos n) = n + 128
uncentered (negsuc n) = 127 - n

module _ (scale : ℤ → ℤ) where
  -- The loops over the samples that are left.
  unfoldable pub scale16 : ℕ → ℕ → Bytes → Bytes
  unfolding write_le16
  scale16 zero offset bytes = bytes
  scale16 (suc left) offset bytes = scale16 left (offset + 2) (
      write_le16 bytes offset
        (to_uint16 (clamp (scale (to_int16 (read_le16 bytes offset))) (negsuc 32767) (pos 32767))))

  unfoldable pub scale8 : ℕ → ℕ → Bytes → Bytes
  scale8 zero offset bytes = bytes
  scale8 (suc left) offset bytes = scale8 left (offset + 1) (
      set bytes offset
        (uncentered (clamp (scale (centered (get_or bytes offset 0))) (negsuc 127) (pos 127))))

  -- What is done to the data of a sound with this many bits per sample.
  unfoldable pub scale_data : (bits offset size : ℕ) → Bytes → Bytes ⊎ Bytes
  unfolding scale16 scale8
  scale_data bits offset size bytes =
      if bits == 16
      then (if size % 2 == 1
          then inr (codes "invalid 16-bit PCM data size")
          else inl (scale16 (size / 2) offset bytes))
      else if bits == 8
      then inl (scale8 size offset bytes)
      else inr (codes "unsupported bits_per_sample=" ++ nat_to_string bits)

  unfoldable pub scale_found : Bytes → Option (ℕ × ℕ) → Option (ℕ × ℕ) → Bytes ⊎ Bytes
  unfolding scale_data
  scale_found bytes none samples = inr (codes "missing fmt or data chunk")
  scale_found bytes (some fmt) none = inr (codes "missing fmt or data chunk")
  scale_found bytes (some (format, bits)) (some (offset, size)) =
      if not (format == 1)
      then inr (codes "unsupported wav encoding (only PCM supported)")
      else scale_data bits offset size bytes

  unfoldable pub scale_scanned : Bytes → Scan → Bytes ⊎ Bytes
  unfolding scale_found
  scale_scanned bytes (found wav) = scale_found bytes wav.fmt wav.samples
  scale_scanned bytes (broken error) = inr error
  scale_scanned bytes out_of_fuel = inr []

  -- `ScalePcmWavInMemory`: the bytes afterwards, or the error. Each chunk takes eight bytes or more.
  unfoldable pub scale_pcm_wav : Bytes → Bytes ⊎ Bytes
  unfolding scale_scanned scan_chunks bytes_eq
  scale_pcm_wav bytes =
      if ltb (length bytes) 44
      then inr (codes "wav too small")
      else if not (bytes_eq (take 4 bytes) (codes "RIFF"))
          || not (bytes_eq (take 4 (drop 8 bytes)) (codes "WAVE"))
      then inr (codes "not a RIFF/WAVE file")
      else scale_scanned bytes
          (scan_chunks (length bytes) bytes 12 record { fmt = none; samples = none })
