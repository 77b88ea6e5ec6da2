-- ===== src/SoundRecorder/Layout.antt =====
-- What a reader of the RIFF format finds in the header that wav.c writes.
use code_samples.Base.{
  ℕ, ◌+◌, ◌-◌, ◌*◌, ◌/◌, ◌%◌, ◌^◌, ◌<◌, ◌≡◌, refl, ◌∙◌, true, some, [], ◌∷◌, arith, Bytes, codes,
  length, take, drop,
}
use code_samples.SoundRecorder.Header.{
  WaveHeader, filled, generic_wav_header, header_bytes, two_bytes, four_bytes, data_size,
}

-- A number in little-endian order, and the one that stands at an offset.
pub read_number : Bytes → ℕ
read_number [] = 0
read_number (b ∷ s) = b + 256 * read_number s

abbrev pub number_at : ℕ → ℕ → Bytes → ℕ
number_at offset size s = read_number (take size (drop offset s))

read_number-two_bytes : (n : ℕ) → n < 2 ^ 16 → read_number (two_bytes n) ≡ n
unfolding read_number
read_number-two_bytes n small = omega arith

read_number-four_bytes : (n : ℕ) → n < 2 ^ 32 → read_number (four_bytes n) ≡ n
unfolding read_number
read_number-four_bytes n small = omega arith

-- The header that writeWAVHeader makes of genericWAVHeader, with a file size filled in, is 44 bytes
-- long and holds all of its fields where the RIFF format has them: "RIFF", the size of the file,
-- "WAVE" and "fmt ", the length 16, the format 1, the channels, the rate, the bytes of a second and of
-- a frame, the bits of a sample, "data", and the size of the file less 36, provided that these
-- numbers, and the bits of a second, fit their fields.
pub header_bytes-generic_wav_header :
    (junk size sample_rate bit_depth channels : ℕ) (hdr : WaveHeader)
    → generic_wav_header true junk sample_rate bit_depth channels ≡ some hdr
    → 36 < size
    → size < 2 ^ 32
    → sample_rate < 2 ^ 32
    → bit_depth < 2 ^ 16
    → channels < 2 ^ 16
    → sample_rate * channels < 2 ^ 32
    → sample_rate * channels * bit_depth < 2 ^ 32
    → channels * bit_depth < 2 ^ 19
    → let s = header_bytes (record hdr { file_size = size }) in
      (length s ≡ 44)
      × (take 4 s ≡ codes "RIFF")
      × (number_at 4 4 s ≡ size)
      × (take 8 (drop 8 s) ≡ codes "WAVEfmt ")
      × (number_at 16 4 s ≡ 16)
      × (number_at 20 2 s ≡ 1)
      × (number_at 22 2 s ≡ channels)
      × (number_at 24 4 s ≡ sample_rate)
      × (number_at 28 4 s ≡ sample_rate * channels * bit_depth / 8)
      × (number_at 32 2 s ≡ channels * bit_depth / 8)
      × (number_at 34 2 s ≡ bit_depth)
      × (take 4 (drop 36 s) ≡ codes "data")
      × (number_at 40 4 s ≡ size - 36)
unfolding generic_wav_header header_bytes
header_bytes-generic_wav_header junk size sample_rate bit_depth channels hdr same above s32 r32 b16
      c16 product second frame =
    let e : hdr ≡ filled junk sample_rate bit_depth channels = ground arith in
    let whole : sample_rate * channels % 2 ^ 32 ≡ sample_rate * channels = omega arith in
    let rate : sample_rate * channels % 2 ^ 32 * bit_depth % 2 ^ 32 / 8
        ≡ sample_rate * channels * bit_depth / 8 =
      rw whole (omega arith) in
    let align : channels * bit_depth / 8 % 2 ^ 16 ≡ channels * bit_depth / 8 = omega arith in
    rw e (
      refl,
      refl,
      read_number-four_bytes size s32,
      refl,
      read_number-four_bytes 16 (omega arith),
      read_number-two_bytes 1 (omega arith),
      read_number-two_bytes channels c16,
      read_number-four_bytes sample_rate r32,
      read_number-four_bytes (sample_rate * channels % 2 ^ 32 * bit_depth % 2 ^ 32 / 8)
            (omega arith)
          ∙ rate,
      read_number-two_bytes (channels * bit_depth / 8 % 2 ^ 16) (omega arith) ∙ align,
      read_number-two_bytes bit_depth b16,
      refl,
      read_number-four_bytes (data_size size) (omega arith) ∙ omega arith,
    )
