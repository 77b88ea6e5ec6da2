-- ===== src/GmailCalendar/Files.antt =====
-- The file routines of c/gmail-calendar/src/util.c, `read_file` and `write_file_secure`.
mod Examples
pub mod Atomic
pub mod Room
use code_samples.Base.{
  ℕ, zero, suc, ◌+◌, ◌-◌, ◌%◌, ◌^◌, Bool, true, false, not, ◌&&◌, Option, none, some, [], ◌∷◌, ◌++◌,
  leb, ltb, if◌then◌else◌, Bytes, codes, length, drop, take,
}
use code_samples.Base.Int.{ℤ, pos, negsuc}
use code_samples.GmailCalendar.Platform.{
  Platform, file, acquire, release, wrote, write_failed, renamed, unlinked, read_bytes, Command,
  pure, emit, ask, obtain, ◌>>=◌, ◌>>◌,
}
use code_samples.GmailCalendar.Util.{Encoded, minus_one}

abbrev pub temporary : Bytes → Bytes
temporary path = path ++ codes ".tmp"

module _ (p : Platform) where
  -- `cap - 1` is on a 64-bit size_t.
  unfoldable pub read_file : Bytes → (cap : ℕ) → Command Encoded
  read_file path cap = do
    opened ← obtain p (file path)
    if not opened then pure (record { ret = minus_one; out = [] }) else do
      (bytes, failed) ← ask (λ h. p.reads h ((cap + 2 ^ 64 - 1) % 2 ^ 64))
      emit (read_bytes bytes)
      emit (release (file path))
      if failed
          then pure (record { ret = minus_one; out = bytes })
          else pure (record { ret = pos (length bytes); out = bytes ++ 0 ∷ [] })

  -- What the loop of `write_file_secure` does with the result of write(2).
  unfoldable pub after_write :
      (offered : Bytes) → ℤ → (again : ℕ → Command (Option Bool)) → Command (Option Bool)
  after_write offered (negsuc n) again = emit write_failed >> pure (some false)
  after_write offered (pos zero) again = emit write_failed >> pure (some false)
  after_write offered (pos (suc n)) again = emit (wrote (take (suc n) offered)) >> again (suc n)

  -- The loop: `off` bytes of the text are written. `none` is lack of fuel.
  unfoldable pub write_loop : ℕ → Bytes → (off : ℕ) → Command (Option Bool)
  unfolding after_write
  write_loop zero buf off = pure none
  write_loop (suc k) buf off =
      if ltb off (length buf)
      then (do
        w ← ask (λ h. p.writes h (drop off buf))
        after_write (drop off buf) w (λ n. write_loop k buf (off + n)))
      else pure (some true)

  -- What follows the loop: `done` says whether every byte was written.
  unfoldable pub finish_write : Bytes → Bool → Command Bool
  finish_write path done = do
    closed ← ask p.closes
    emit (release (file (temporary path)))
    moved ←
        (if done && closed
          then (do
            moved ← ask (λ h. p.renames h (temporary path) path)
            emit (renamed (temporary path) path moved)
            pure moved)
          else pure false)
    if moved then pure true else (do emit (unlinked (temporary path)); pure false)

  unfoldable pub after_loop : Bytes → Option Bool → Command (Option Bool)
  unfolding finish_write
  after_loop path none = pure none
  after_loop path (some done) = do r ← finish_write path done; pure (some r)

  -- The file is opened with mode 0600 and truncated.
  unfoldable pub write_file_secure : (fuel : ℕ) → Bytes → Bytes → Command (Option Bool)
  unfolding write_loop after_loop
  write_file_secure fuel path buf =
      if leb 512 (length (temporary path)) then pure (some false) else do
        opened ← obtain p (file (temporary path))
        if not opened
            then pure (some false)
            else do result ← write_loop fuel buf 0; after_loop path result
