-- ===== src/SoundRecorder/Release.antt =====
-- recordWAV gives back the device, the buffer and the file.
use code_samples.Base.{
  ℕ, zero, suc, ◌+◌, ◌^◌, ◌-◌, ◌==◌, ◌*◌, ◌/◌, ◌%◌, ◌<◌, ◌≤◌, ◌≡◌, refl, Bool, true, false, Option,
  none, some, ◌∷◌, arith, Bytes, Bool-cases, inl, inr, if◌then◌else◌,
}
use code_samples.Base.Int.{ℤ, pos, negsuc, to_int}
use native.Mathlib.Nat.{div-eq-sub-div}
use code_samples.SoundRecorder.Device.{
  Device, History, Open, nothing, opened, ask, ◌>>=◌, ◌>>◌, acquire, called, pcm, buffer, file,
  readi, get_period_time, hw_params, get_period_size, open_pcm, set_access, set_format,
  set_channels, set_rate_near, set_period_size_near,
}
use code_samples.SoundRecorder.Header.{WaveHeader, write, write_wav_header, header_bytes}
use code_samples.SoundRecorder.Record.{
  is_error, is_negative, rounds, period_bytes, with_size, recovered, unless_error, record_loop,
  finish_recording, record_samples, record_file, record_period, record_wav,
}

abbrev pub Ends : Option ℤ × History → Type 0
Ends run = (code : ℤ) × (run.0 ≡ some code) × (opened run.1 ≡ some nothing)

abbrev all_open : Bool → Open
all_open fd = record { has_pcm = true; has_buffer = true; has_file = fd }

test-ne : (n : ℕ) → 0 < n → (n == 0) ≡ false
test-ne n above = ground arith

rounds-some :
    (duration sample_rate frames : ℕ)
    → 0 < frames
    → frames ≤ sample_rate
    → (i : ℕ) × (rounds duration sample_rate frames ≡ some i)
unfolding rounds
rounds-some duration sample_rate frames some_frames enough =
    let least : sample_rate / frames ≡ (sample_rate - frames) / frames + 1 =
      div-eq-sub-div some_frames enough in
    rw (test-ne frames (omega arith), test-ne (sample_rate / frames) (omega arith))
      (counted (to_int (pos (duration * 1000 % 2 ^ 32 / (sample_rate / frames)))))
  where
    counted : (z : ℤ) → (i : ℕ) × ((elim z [ pos n ↦ some n | negsuc n ↦ some 0 ]) ≡ some i)
    counted (pos n) = (n, refl)
    counted (negsuc n) = (0, refl)

write-opened :
    (fd : Bool) (bytes : Bytes) (h : History) (o : Open)
    → opened h ≡ some o
    → opened (write fd bytes h).1 ≡ some o
unfolding opened
write-opened true bytes h o at = ground arith
write-opened false bytes h o at = at

module _ (d : Device) where
  recovered-opened :
      (err : ℤ) (h : History) (o : Open) → opened h ≡ some o → opened (recovered d err h).1 ≡ some o
  unfolding recovered opened
  recovered-opened (pos n) h o at = at
  recovered-opened (negsuc n) h o at = ground arith

  record_loop-opened :
      (i : ℕ) (fd : Bool) (frames : ℕ) (size : ℤ) (h : History) (o : Open)
      → opened h ≡ some o
      → opened (record_loop d i fd frames size h).1 ≡ some o
  unfolding record_loop opened
  record_loop-opened zero fd frames size h o at = at
  record_loop-opened (suc i) fd frames size h o at =
      go (recovered d (d.answers h (readi frames)) (called (readi frames) ∷ h)).0
        (recovered d (d.answers h (readi frames)) (called (readi frames) ∷ h)).1
        (recovered-opened (d.answers h (readi frames)) (called (readi frames) ∷ h) o (ground arith))
        (λ g at'. record_loop-opened i fd frames size g o at')
    where
      go :
          (err : ℤ) (g : History)
          → opened g ≡ some o
          → ((g' : History)
              → opened g' ≡ some o
              → opened (record_loop d i fd frames size g').1 ≡ some o)
          → opened
              (unless_error d err
                (ask (λ h'. d.audio h' size)
                  >>= (λ bytes. write fd bytes >> record_loop d i fd frames size))
                g).1
            ≡ some o
      go (negsuc n) g at' rest = at'
      go (pos n) g at' rest =
          rest (write fd (d.audio g size) g).1 (write-opened fd (d.audio g size) g o at')

  finish_recording-Ends :
      (fd : Bool) (stopped : Option ℤ) (h : History)
      → opened h ≡ some (all_open fd)
      → Ends (finish_recording d fd stopped h)
  unfolding finish_recording opened
  finish_recording-Ends true (some err) h at = (err, refl, ground arith)
  finish_recording-Ends false (some err) h at = (err, refl, ground arith)
  finish_recording-Ends true none h at = (pos 0, refl, ground arith)
  finish_recording-Ends false none h at = (pos 0, refl, ground arith)

  record_samples-Ends :
      (fd : Bool) (hdr : WaveHeader) (duration frames : ℕ) (size : ℤ) (h : History)
      → opened h ≡ some (all_open fd)
      → 0 < frames
      → frames ≤ hdr.sample_rate
      → Ends (record_samples d fd hdr duration frames size h)
  unfolding record_samples write_wav_header
  record_samples-Ends fd hdr duration frames size h at some_frames enough =
      let (i, counted) = rounds-some duration hdr.sample_rate frames some_frames enough in
      let g = (write fd (header_bytes hdr) h).1 in
      let run = record_loop d i fd frames size g in
      rw counted (
        finish_recording-Ends fd run.0 run.1 (
          record_loop-opened i fd frames size g (all_open fd)
            (write-opened fd (header_bytes hdr) h (all_open fd) at)))

  abbrev buffered : Open
  buffered = record { has_pcm = true; has_buffer = true; has_file = false }

  record_file-Ends :
      (file_name : Bytes) (hdr : WaveHeader) (duration frames : ℕ) (size : ℤ) (h : History)
      → opened h ≡ some buffered
      → 0 < frames
      → frames ≤ hdr.sample_rate
      → Ends (record_file d file_name hdr duration frames size h)
  unfolding record_file opened
  record_file-Ends file_name hdr duration frames size h at some_frames enough =
      let g = called get_period_time ∷ h in
      elim (Bool-cases (is_error (d.answers h get_period_time))) [
        | inl bad ↦ rw bad (d.answers h get_period_time, refl, ground arith)
        | inr good ↦ elim (Bool-cases (d.opens g file_name)) [
          | inl yes_file ↦
              rw (good, yes_file)
                (record_samples-Ends true (with_size hdr duration) duration frames size
                  (acquire file ∷ g) (ground arith) some_frames enough)
          | inr no_file ↦
              rw (good, no_file)
                (record_samples-Ends false (with_size hdr duration) duration frames size g
                  (ground arith) some_frames enough)
        ]
      ]

  abbrev device_only : Open
  device_only = record { has_pcm = true; has_buffer = false; has_file = false }

  module _ (some_frames : (g : History) → 0 < d.period_size g) where
    record_period-Ends :
        (file_name : Bytes) (hdr : WaveHeader) (duration : ℕ) (h : History)
        → opened h ≡ some device_only
        → ((g : History) → d.period_size g ≤ hdr.sample_rate)
        → Ends (record_period d file_name hdr duration h)
    unfolding record_period opened
    record_period-Ends file_name hdr duration h at enough =
        let g = called hw_params ∷ h in
        let g' = called get_period_size ∷ g in
        let frames = d.period_size g' in
        let size = period_bytes hdr frames in
        elim (Bool-cases (is_negative (d.answers h hw_params))) [
          | inl bad ↦ rw bad (d.answers h hw_params, refl, ground arith)
          | inr good ↦ elim (Bool-cases (is_error (d.answers g get_period_size))) [
            | inl bad ↦ rw (good, bad) (d.answers g get_period_size, refl, ground arith)
            | inr sized ↦ elim (Bool-cases (d.has_memory g' size)) [
              | inr full ↦ rw (good, sized, full) (negsuc 0, refl, ground arith)
              | inl memory ↦
                  rw (good, sized, memory)
                    (record_file-Ends file_name hdr duration frames size (acquire buffer ∷ g')
                      (ground arith) (some_frames g') (enough g'))
            ]
          ]
        ]

  -- If a period has frames, and no more than the rate has, recordWAV returns a code, with the device,
  -- the buffer and the file given back, each once, whichever call fails.
  pub record_wav-Ends :
      (file_name : Bytes) (hdr : WaveHeader) (duration : ℕ) (h : History)
      → ((g : History) → 0 < d.period_size g)
      → ((g g' : History) (n : ℕ) → d.period_size g ≤ d.rate_near g' n)
      → opened h ≡ some nothing
      → (code : ℤ) × ((record_wav d file_name hdr duration h).0 ≡ some code)
        × (opened (record_wav d file_name hdr duration h).1 ≡ some nothing)
  unfolding record_wav opened
  record_wav-Ends file_name hdr duration h some_frames enough at =
      let rate_call = set_rate_near hdr.sample_rate in
      let format_call = set_format (if hdr.bits_per_sample == 16 then 16 else 8) in
      let channels_call = set_channels hdr.number_of_channels in
      let h1 : History = acquire pcm ∷ called open_pcm ∷ h in
      let h2 : History = called set_access ∷ h1 in
      let h3 : History = called format_call ∷ h2 in
      let h4 : History = called channels_call ∷ h3 in
      let h5 : History = called rate_call ∷ h4 in
      let h6 : History = called (set_period_size_near 32) ∷ h5 in
      let rate = d.rate_near h4 hdr.sample_rate in
      elim (Bool-cases (is_error (d.answers h open_pcm))) [
        | inl bad ↦ rw bad (d.answers h open_pcm, refl, ground arith)
        | inr e1 ↦ elim (Bool-cases (is_error (d.answers h1 set_access))) [
          | inl bad ↦ rw (e1, bad) (d.answers h1 set_access, refl, ground arith)
          | inr e2 ↦ elim (Bool-cases (is_error (d.answers h2 format_call))) [
            | inl bad ↦ rw (e1, e2, bad) (d.answers h2 format_call, refl, ground arith)
            | inr e3 ↦ elim (Bool-cases (is_error (d.answers h3 channels_call))) [
              | inl bad ↦ rw (e1, e2, e3, bad) (d.answers h3 channels_call, refl, ground arith)
              | inr e4 ↦ elim (Bool-cases (is_error (d.answers h4 rate_call))) [
                | inl bad ↦ rw (e1, e2, e3, e4, bad) (d.answers h4 rate_call, refl, ground arith)
                | inr e5 ↦ elim (Bool-cases (is_error (d.answers h5 (set_period_size_near 32)))) [
                  | inl bad ↦
                      rw (e1, e2, e3, e4, e5, bad)
                        (d.answers h5 (set_period_size_near 32), refl, ground arith)
                  | inr e6 ↦
                      rw (e1, e2, e3, e4, e5, e6)
                        (record_period-Ends some_frames file_name
                          (record hdr { sample_rate = rate }) duration h6 (ground arith)
                          (λ g. enough g h4 hdr.sample_rate))
                ]
              ]
            ]
          ]
        ]
      ]
