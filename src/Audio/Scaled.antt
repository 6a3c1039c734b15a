-- ===== src/Audio/Scaled.antt =====
-- What `ScalePcmWavInMemory` of chime/src/audio/aplay_audio_player.cpp leaves alone.
use virtualchime.Base.{
  ℕ, zero, suc, ◌+◌, ◌*◌, ◌/◌, ◌%◌, ◌≤◌, ◌≡◌, ◌⊎◌, inl, inr, refl, ap, ◌∙◌, arith, not, ◌||◌, [],
  ◌∷◌, Option, none, some, Bytes, codes, bytes_eq, length, length-set, set, get_or, take, drop, ltb,
  ◌==◌, false, is_empty, Bool-cases, ℤ,
}
use virtualchime.Audio.{
  Wav, Scan, found, broken, out_of_fuel, write_le16, scan_chunks, scale16, scale8, scale_data,
  scale_found, scale_scanned, scale_pcm_wav,
}
use virtualchime.Audio.Chunks.{ChunkAt, DataChunk, Scanned, finds, stops, scan_chunks-Scanned}

-- The bytes in front of the place and behind it are as before.
pub record Keeps (offset n : ℕ) (before after : Bytes) : Type 0 where
  pub size : length after ≡ length before
  pub front : (i : ℕ) → suc i ≤ offset → get_or after i 0 ≡ get_or before i 0
  pub behind : (i : ℕ) → offset + n ≤ i → get_or after i 0 ≡ get_or before i 0

get_or-set : (xs : Bytes) (j v i : ℕ) → (i ≡ j → ⊥) → get_or (set xs j v) i 0 ≡ get_or xs i 0
get_or-set [] j v i h = refl
get_or-set (x ∷ xs) zero v zero h = absurd (h refl)
get_or-set (x ∷ xs) zero v (suc i) h = refl
get_or-set (x ∷ xs) (suc j) v zero h = refl
get_or-set (x ∷ xs) (suc j) v (suc i) h = get_or-set xs j v i (λ e. h (ap suc e))

Keeps-trans :
    {offset n : ℕ} {a b c : Bytes} → Keeps offset n a b → Keeps offset n b c → Keeps offset n a c
Keeps-trans f g = record {
  size = g.size ∙ f.size;
  front = λ i h. g.front i h ∙ f.front i h;
  behind = λ i h. g.behind i h ∙ f.behind i h;
}

Keeps-refl : (offset n : ℕ) (a : Bytes) → Keeps offset n a a
Keeps-refl offset n a = record { size = refl; front = λ i h. refl; behind = λ i h. refl }

-- A change of less keeps more.
Keeps-wider :
    {m k : ℕ} (offset n : ℕ) {a b : Bytes}
    → Keeps m k a b
    → offset ≤ m
    → m + k ≤ offset + n
    → Keeps offset n a b
Keeps-wider offset n f h k = record {
  size = f.size;
  front = λ i l. f.front i (omega arith);
  behind = λ i l. f.behind i (omega arith);
}

set-Keeps : (bytes : Bytes) (offset v : ℕ) → Keeps offset 1 bytes (set bytes offset v)
set-Keeps bytes offset v = record {
  size = length-set bytes offset v;
  front = λ i h. get_or-set bytes offset v i (λ e. omega (arith, e));
  behind = λ i h. get_or-set bytes offset v i (λ e. omega (arith, e));
}

write_le16-Keeps : (bytes : Bytes) (offset v : ℕ) → Keeps offset 2 bytes (write_le16 bytes offset v)
unfolding write_le16
write_le16-Keeps bytes offset v =
    Keeps-trans
      (Keeps-wider offset 2 (set-Keeps bytes offset (v % 256)) (omega arith) (omega arith))
      (Keeps-wider offset 2 (set-Keeps (set bytes offset (v % 256)) (offset + 1) (v / 256 % 256))
        (omega arith) (omega arith))

module _ (scale : ℤ → ℤ) where
  scale16-Keeps :
      (left offset : ℕ) (bytes : Bytes)
      → Keeps offset (2 * left) bytes (scale16 scale left offset bytes)
  unfolding scale16
  scale16-Keeps zero offset bytes = Keeps-refl offset 0 bytes
  scale16-Keeps (suc left) offset bytes =
      Keeps-trans
        (Keeps-wider offset (2 * suc left) (write_le16-Keeps bytes offset _) (omega arith)
          (omega arith))
        (Keeps-wider offset (2 * suc left) (scale16-Keeps left (offset + 2) _) (omega arith)
          (omega arith))

  scale8-Keeps :
      (left offset : ℕ) (bytes : Bytes) → Keeps offset left bytes (scale8 scale left offset bytes)
  unfolding scale8
  scale8-Keeps zero offset bytes = Keeps-refl offset 0 bytes
  scale8-Keeps (suc left) offset bytes =
      Keeps-trans
        (Keeps-wider offset (suc left) (set-Keeps bytes offset _) (omega arith) (omega arith))
        (Keeps-wider offset (suc left) (scale8-Keeps left (offset + 1) _) (omega arith)
          (omega arith))

  -- How the scaling can end.
  pub data ScaleEnds (bytes : Bytes) : Bytes ⊎ Bytes → Type 0 where
    scales :
        (after : Bytes) (offset n : ℕ)
        → DataChunk bytes offset n
        → Keeps offset n bytes after
        → ScaleEnds bytes (inl after)
    refuses : (error : Bytes) → is_empty error ≡ false → ScaleEnds bytes (inr error)

  scale_data-ScaleEnds :
      (bits offset n : ℕ) (bytes : Bytes)
      → DataChunk bytes offset n
      → ScaleEnds bytes (scale_data scale bits offset n bytes)
  unfolding scale_data
  scale_data-ScaleEnds bits offset n bytes h = elim (Bool-cases (bits == 16)) [
    | inl e ↦ elim (Bool-cases (n % 2 == 1)) [
      | inl f ↦ rw (e, f) (refuses _ refl)
      | inr f ↦
          let half : 2 * (n / 2) ≤ n = omega arith in
          rw (e, f)
            (scales _ offset n h (
              Keeps-wider offset n (scale16-Keeps (n / 2) offset bytes) (omega arith)
                (omega arith)))
    ]
    | inr e ↦ elim (Bool-cases (bits == 8)) [
      | inl f ↦ rw (e, f) (scales _ offset n h (scale8-Keeps n offset bytes))
      | inr f ↦ rw (e, f) (refuses _ refl)
    ]
  ]

  scale_found-ScaleEnds :
      (bytes : Bytes) (fmt samples : Option (ℕ × ℕ))
      → ((offset n : ℕ) → samples ≡ some (offset, n) → DataChunk bytes offset n)
      → ScaleEnds bytes (scale_found scale bytes fmt samples)
  unfolding scale_found
  scale_found-ScaleEnds bytes none samples w = refuses _ refl
  scale_found-ScaleEnds bytes (some fmt) none w = refuses _ refl
  scale_found-ScaleEnds bytes (some (format, bits)) (some (offset, n)) w =
      elim (Bool-cases (format == 1)) [
        | inr g ↦ rw g (refuses _ refl)
        | inl g ↦ rw g (scale_data-ScaleEnds bits offset n bytes (w offset n refl))
      ]

  scale_scanned-ScaleEnds :
      (bytes : Bytes) (scan : Scan)
      → Scanned bytes scan
      → ScaleEnds bytes (scale_scanned scale bytes scan)
  unfolding scale_scanned
  scale_scanned-ScaleEnds bytes (found wav) (finds w h) =
      scale_found-ScaleEnds bytes w.fmt w.samples h
  scale_scanned-ScaleEnds bytes (broken error) (stops filled) = refuses error filled
  scale_scanned-ScaleEnds bytes out_of_fuel s = elim s [ ]

  -- Whatever the file holds and however samples are scaled: a file that is scaled keeps its size
  -- and every byte outside of the data of one of its chunks, which is named "data" and lies in the
  -- file; any other file is refused with an error text that is not empty, as every error of the
  -- code and unlike the scan of chunks where it has no fuel left.
  pub scale_pcm_wav-ScaleEnds : (bytes : Bytes) → ScaleEnds bytes (scale_pcm_wav scale bytes)
  unfolding scale_pcm_wav
  scale_pcm_wav-ScaleEnds bytes =
      let start : Wav = record { fmt = none; samples = none } in
      elim (Bool-cases (ltb (length bytes) 44)) [
        | inl e ↦ rw e (refuses _ refl)
        | inr e ↦
            elim (Bool-cases (
              not (bytes_eq (take 4 bytes) (codes "RIFF"))
              || not (bytes_eq (take 4 (drop 8 bytes)) (codes "WAVE")))) [
                | inl f ↦ rw (e, f) (refuses _ refl)
                | inr f ↦
                    let long : 44 ≤ length bytes = ground (arith, e) in
                    rw (e, f)
                      (scale_scanned-ScaleEnds bytes (scan_chunks (length bytes) bytes 12 start) (
                        scan_chunks-Scanned (length bytes) bytes 12 start (omega arith)
                          (omega arith) ChunkAt.first (λ a b s. absurd (cc s))))
              ]
      ]
