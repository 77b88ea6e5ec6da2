-- ===== src/GmailCalendar/Files/Room.antt =====
-- `read_file`: its file is closed, and what it reads fits the buffer.
use code_samples.Base.{
  List, ℕ, ◌+◌, ◌-◌, ◌%◌, ◌^◌, ◌≤◌, ◌<◌, ◌≡◌, refl, true, false, ◌⊎◌, inl, inr, some, [], ◌∷◌, ◌++◌,
  arith, Bytes, length, length-append, Bool-cases,
}
use code_samples.Base.Int.{pos, negsuc}
use code_samples.GmailCalendar.Platform.{Platform, History, acquire, file, held, held, Resource}
use code_samples.GmailCalendar.Files.{read_file}

-- `read_file` closes the file that it opened, on every path.
pub read_file-Balanced :
    (p : Platform) (path : Bytes) (cap : ℕ)
    → (h : History) (rs : List Resource) → held h ≡ some rs
    → held (read_file p path cap h).1 ≡ some rs
unfolding read_file held
read_file-Balanced p path cap h rs at = ground arith

-- Provided that fread gives no more than it is asked for and the capacity fits a `long`, `read_file`
-- returns -1 where the file does not open or fread fails, and otherwise the number of the bytes that
-- fread gave when asked for one less than the capacity; they stand in the buffer with a NUL behind
-- them and fit it.
pub read_file-fits :
    (p : Platform) (path : Bytes) (cap : ℕ) (h : History)
    → ((g : History) (n : ℕ) → length (p.reads g n).0 ≤ n)
    → 0 < cap
    → cap < 2 ^ 63
    → let r = (read_file p path cap h).0 in
      let (bytes, failed) = p.reads (acquire (file path) ∷ h) (cap - 1) in
      ((r.ret ≡ negsuc 0) × ((p.acquires h (file path) ≡ false) ⊎ (failed ≡ true)))
      ⊎ ((p.acquires h (file path) ≡ true)
          × (failed ≡ false)
          × (r.ret ≡ pos (length bytes))
          × (r.out ≡ bytes ++ 0 ∷ [])
          × (length r.out ≤ cap))
unfolding read_file
read_file-fits p path cap h asked some_room small =
    let start = acquire (file path) ∷ h in
    let exact : (cap + 2 ^ 64 - 1) % 2 ^ 64 ≡ cap - 1 = omega arith in
    elim (Bool-cases (p.acquires h (file path))) [
      | inr shut ↦ rw shut (inl (refl, inl refl))
      | inl opens ↦ elim (Bool-cases (p.reads start (cap - 1)).1) [
        | inl bad ↦ rw (opens, exact) (rw bad (inl (refl, inr refl)))
        | inr good ↦
            let bytes = (p.reads start (cap - 1)).0 in
            rw (opens, exact)
              (rw good (
                inr (
                  refl,
                  refl,
                  refl,
                  refl,
                  omega (arith, asked start (cap - 1), length-append bytes (0 ∷ [])),
                )))
      ]
    ]
