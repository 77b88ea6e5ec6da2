-- ===== src/SoundRecorder/Record.antt =====
-- recordWAV of wav.c: the set-up of the device, the header and the recording loop. The loop runs on
-- its own counter.
use code_samples.Base.{
  ℕ, zero, suc, ◌+◌, ◌*◌, ◌/◌, ◌%◌, ◌^◌, ◌==◌, Bool, true, false, not, Option, none, some, Bytes,
  if◌then◌else◌,
}
use code_samples.Base.Int.{ℤ, pos, negsuc, to_int}
use code_samples.SoundRecorder.Device.{
  Device, Command, Call, pcm, buffer, file, open_pcm, set_access, set_format, set_channels,
  set_rate_near, set_period_size_near, hw_params, get_period_size, get_period_time, readi, recover,
  acquire, release, called, drained, pure, emit, ask, ◌>>=◌, ◌>>◌,
}
use code_samples.SoundRecorder.Header.{WaveHeader, write, write_wav_header}

abbrev pub is_error : ℤ → Bool
is_error (pos n) = not (n == 0)
is_error (negsuc n) = true

abbrev pub is_negative : ℤ → Bool
is_negative (pos n) = false
is_negative (negsuc n) = true

-- The rounds of the loop, an `int`; none where the divisor is 0, which stops the program.
unfoldable pub rounds : (duration sample_rate frames : ℕ) → Option ℕ
rounds duration sample_rate frames =
    if frames == 0
    then none
    else if sample_rate / frames == 0
    then none
    else elim (to_int (pos (duration * 1000 % 2 ^ 32 / (sample_rate / frames)))) [
      | pos n ↦ some n
      | negsuc n ↦ some 0
    ]

-- The bytes of a period, an `int`.
abbrev pub period_bytes : WaveHeader → ℕ → ℤ
period_bytes hdr frames =
    to_int (pos (frames * hdr.bits_per_sample % 2 ^ 64 / 8 * hdr.number_of_channels % 2 ^ 64))

-- The header with the size of the file.
abbrev pub with_size : WaveHeader → (duration : ℕ) → WaveHeader
with_size hdr duration = record hdr {
  file_size =
      (hdr.sample_rate * hdr.bytes_per_frame % 2 ^ 32 * (duration / 1000) % 2 ^ 32 + 36) % 2 ^ 32;
}

module _ (d : Device) where
  -- A call and its code; `close_pcm` is what a failure does.
  abbrev pub code_of : Call → Command ℤ
  code_of c = do err ← ask (λ h. d.answers h c); emit (called c); pure err

  abbrev pub close_pcm : ℤ → Command (Option ℤ)
  close_pcm err = do emit (release pcm); pure (some err)

  abbrev pub close_file : (fd : Bool) → Command (Unit {0})
  close_file fd = if fd then emit (release file) else pure tt

  unfoldable pub fail_recording : (fd : Bool) → ℤ → Command (Option ℤ)
  fail_recording fd err = do
    emit (release pcm)
    emit (release buffer)
    close_file fd
    pure (some err)

  -- What snd_pcm_readi returned, recovered from if it is an error.
  unfoldable pub recovered : ℤ → Command ℤ
  recovered err = if is_negative err then code_of (recover err) else pure err

  -- A negative code ends the loop.
  abbrev pub unless_error : ℤ → Command (Option ℤ) → Command (Option ℤ)
  unless_error (pos n) rest = rest
  unless_error (negsuc n) rest = pure (some (negsuc n))

  -- The error that ends the loop, if one does.
  unfoldable pub record_loop :
      (i : ℕ) → (fd : Bool) → (frames : ℕ) → (size : ℤ) → Command (Option ℤ)
  unfolding recovered
  record_loop zero fd frames size = pure none
  record_loop (suc i) fd frames size = do
    err ← code_of (readi frames)
    err' ← recovered err
    unless_error err'
        (do bytes ← ask (λ h. d.audio h size); write fd bytes; record_loop i fd frames size)

  -- Behind the loop.
  unfoldable pub finish_recording : (fd : Bool) → Option ℤ → Command (Option ℤ)
  unfolding fail_recording
  finish_recording fd (some err) = fail_recording fd err
  finish_recording fd none = do
    close_file fd
    emit drained
    emit (release pcm)
    emit (release buffer)
    pure (some (pos 0))

  -- With the file open: the header and the samples.
  unfoldable pub record_samples :
      (fd : Bool) → WaveHeader → (duration frames : ℕ) → (size : ℤ) → Command (Option ℤ)
  unfolding write_wav_header
  record_samples fd hdr duration frames size = do
    err ← write_wav_header fd (some hdr)
    if is_error err then fail_recording fd err else elim (rounds duration hdr.sample_rate frames) [
      | none ↦ pure none
      | some i ↦ do stopped ← record_loop i fd frames size; finish_recording fd stopped
    ]

  -- With the buffer.
  unfoldable pub record_file :
      Bytes → WaveHeader → (duration frames : ℕ) → (size : ℤ) → Command (Option ℤ)
  record_file file_name hdr duration frames size = do
    err ← code_of get_period_time
    if is_error err then (do emit (release pcm); emit (release buffer); pure (some err)) else do
      fd ← ask (λ h. d.opens h file_name)
      if fd then emit (acquire file) else pure tt
      record_samples fd (with_size hdr duration) duration frames size

  -- With the parameters of the hardware.
  unfoldable pub record_period : Bytes → WaveHeader → (duration : ℕ) → Command (Option ℤ)
  record_period file_name hdr duration = do
    written ← code_of hw_params
    if is_negative written then close_pcm written else do
      sized ← code_of get_period_size
      if is_error sized then close_pcm sized else do
        frames ← ask d.period_size
        let size = period_bytes hdr frames
        memory ← ask (λ h. d.has_memory h size)
        if not memory
            then close_pcm (negsuc 0)
            else do emit (acquire buffer); record_file file_name hdr duration frames size

  unfoldable pub record_wav : Bytes → WaveHeader → (duration : ℕ) → Command (Option ℤ)
  record_wav file_name hdr duration = do
    opening ← code_of open_pcm
    if is_error opening then pure (some opening) else do
      emit (acquire pcm)
      access ← code_of set_access
      if is_error access then close_pcm access else do
        format ← code_of (set_format (if hdr.bits_per_sample == 16 then 16 else 8))
        if is_error format then close_pcm format else do
          channels ← code_of (set_channels hdr.number_of_channels)
          if is_error channels then close_pcm channels else do
            rate ← ask (λ h. d.rate_near h hdr.sample_rate)
            rated ← code_of (set_rate_near hdr.sample_rate)
            if is_error rated then close_pcm rated else do
              period ← code_of (set_period_size_near 32)
              if is_error period
                  then close_pcm period
                  else record_period file_name (record hdr { sample_rate = rate }) duration
