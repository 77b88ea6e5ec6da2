-- ===== src/SoundRecorder/Header.antt =====
-- The header of a WAV file: `WaveHeader` of wav.h, genericWAVHeader and writeWAVHeader of wav.c.
-- Numbers are written in little-endian order, as on the machines the program is for.
use code_samples.Base.{
  ℕ, ◌+◌, ◌-◌, ◌*◌, ◌/◌, ◌%◌, ◌^◌, Bool, Option, none, some, [], ◌∷◌, ◌++◌, Bytes, codes,
  if◌then◌else◌,
}
use code_samples.Base.Int.{ℤ, pos, negsuc}
use code_samples.SoundRecorder.Device.{Command, wrote, pure, emit, ◌>>◌}

pub record WaveHeader : Type 0 where
  pub riff_marker : Bytes
  pub file_size : ℕ
  pub filetype_header : Bytes
  pub format_marker : Bytes
  pub data_header_length : ℕ
  pub format_type : ℕ
  pub number_of_channels : ℕ
  pub sample_rate : ℕ
  pub bytes_per_second : ℕ
  pub bytes_per_frame : ℕ
  pub bits_per_sample : ℕ

-- The header with its fields set; `junk` is what the uninitialised file_size holds.
abbrev pub filled : (junk sample_rate bit_depth channels : ℕ) → WaveHeader
filled junk sample_rate bit_depth channels = record {
  riff_marker = codes "RIFF";
  file_size = junk;
  filetype_header = codes "WAVE";
  format_marker = codes "fmt ";
  data_header_length = 16;
  format_type = 1;
  number_of_channels = channels;
  sample_rate = sample_rate;
  bytes_per_second = sample_rate * channels % 2 ^ 32 * bit_depth % 2 ^ 32 / 8;
  bytes_per_frame = channels * bit_depth / 8 % 2 ^ 16;
  bits_per_sample = bit_depth;
}

unfoldable pub generic_wav_header :
    (has_memory : Bool) (junk : ℕ) (sample_rate bit_depth channels : ℕ) → Option WaveHeader
generic_wav_header has_memory junk sample_rate bit_depth channels =
    if has_memory then some (filled junk sample_rate bit_depth channels) else none

-- The two or four bytes of a number in memory.
abbrev pub two_bytes : ℕ → Bytes
two_bytes n = n % 256 ∷ n / 256 % 256 ∷ []

abbrev pub four_bytes : ℕ → Bytes
four_bytes n = n % 256 ∷ n / 256 % 256 ∷ n / 65536 % 256 ∷ n / 16777216 % 256 ∷ []

-- `hdr->file_size - 36`, on 32 bits
abbrev pub data_size : ℕ → ℕ
data_size file_size = (file_size + 2 ^ 32 - 36) % 2 ^ 32

-- What the writes put into the file, one after the other.
unfoldable pub header_bytes : WaveHeader → Bytes
header_bytes hdr =
    hdr.riff_marker
    ++ four_bytes hdr.file_size
    ++ hdr.filetype_header
    ++ hdr.format_marker
    ++ four_bytes hdr.data_header_length
    ++ two_bytes hdr.format_type
    ++ two_bytes hdr.number_of_channels
    ++ four_bytes hdr.sample_rate
    ++ four_bytes hdr.bytes_per_second
    ++ two_bytes hdr.bytes_per_frame
    ++ two_bytes hdr.bits_per_sample
    ++ codes "data"
    ++ four_bytes (data_size hdr.file_size)

-- `write` to a descriptor that may be -1, which nothing is written to; no result is looked at.
abbrev pub write : (fd : Bool) → Bytes → Command (Unit {0})
write fd bytes = if fd then emit (wrote bytes) else pure tt

unfoldable pub write_wav_header : (fd : Bool) → Option WaveHeader → Command ℤ
unfolding header_bytes
write_wav_header fd none = pure (negsuc 0)
write_wav_header fd (some hdr) = do write fd (header_bytes hdr); pure (pos 0)
