-- ===== src/SoundRecorder/Examples.antt =====
-- A recording of two seconds, and the theorems at it.
use code_samples.Base.{◌≡◌, ◌-◌, refl, true, some, [], ◌∷◌, arith, codes, length, take, drop}
use code_samples.Base.Int.{ℤ, pos}
use code_samples.SoundRecorder.Device.{Device, nothing, opened}
use code_samples.SoundRecorder.Header.{WaveHeader, filled, generic_wav_header, header_bytes}
use code_samples.SoundRecorder.Layout.{number_at, header_bytes-generic_wav_header}
use code_samples.SoundRecorder.Record.{record_wav}
use code_samples.SoundRecorder.Release.{record_wav-Ends}

-- A device on which every call succeeds.
abbrev microphone : Device
microphone = record {
  answers = λ h c. pos 0;
  rate_near = λ h n. 8000;
  period_size = λ h. 4000;
  has_memory = λ h n. true;
  opens = λ h path. true;
  audio = λ h n. 1 ∷ 2 ∷ [];
}

abbrev mono : WaveHeader
mono = filled 0 8000 16 1

header_bytes-generic_wav_header_example :
    let s = header_bytes (record mono { file_size = 100 }) in
    (length s ≡ 44)
    × (take 4 s ≡ codes "RIFF")
    × (number_at 4 4 s ≡ 100)
    × (take 8 (drop 8 s) ≡ codes "WAVEfmt ")
    × (number_at 16 4 s ≡ 16)
    × (number_at 20 2 s ≡ 1)
    × (number_at 22 2 s ≡ 1)
    × (number_at 24 4 s ≡ 8000)
    × (number_at 28 4 s ≡ 16000)
    × (number_at 32 2 s ≡ 2)
    × (number_at 34 2 s ≡ 16)
    × (take 4 (drop 36 s) ≡ codes "data")
    × (number_at 40 4 s ≡ 100 - 36)
unfolding generic_wav_header
header_bytes-generic_wav_header_example =
    header_bytes-generic_wav_header 0 100 8000 16 1 mono refl (omega arith) (omega arith)
      (omega arith) (omega arith) (omega arith) (omega arith) (omega arith) (omega arith)

record_wav-Ends_example :
    (code : ℤ) × ((record_wav microphone (codes "a.wav") mono 2 []).0 ≡ some code)
    × (opened (record_wav microphone (codes "a.wav") mono 2 []).1 ≡ some nothing)
unfolding opened
record_wav-Ends_example =
    record_wav-Ends microphone (codes "a.wav") mono 2 [] (λ g. omega arith) (λ g g' n. omega arith)
      refl
