-- ===== src/GmailCalendar/Files/Atomic.antt =====
-- `write_file_secure`: the loop ends, and the target is replaced by the whole text or not at all.
use code_samples.Base.{
  ℕ, zero, suc, ◌+◌, ◌-◌, ◌<◌, ◌≡◌, refl, ◌⊎◌, inl, inr, Bool, true, false, Option, none, some,
  List, [], ◌∷◌, ◌++◌, append-nil, append_assoc, arith, ltb, leb, Bytes, length, drop, take, ap,
  sym, ◌∙◌, Bool-cases,
}
use code_samples.Base.{take-append-drop, drop-drop, drop_all}
use code_samples.Base.Int.{ℤ, pos, negsuc}
use code_samples.GmailCalendar.Platform.{
  Platform, History, acquire, release, refused, file, wrote, write_failed, renamed, unlinked, held,
  held, Resource, Resource, Command,
}
use code_samples.GmailCalendar.Files.{
  after_write, after_loop, write_loop, finish_write, write_file_secure, temporary,
}

-- The bytes written since a file was last opened, as a history tells.
pub written : History → Bytes
written [] = []
written (acquire r ∷ h) = []
written (wrote bytes ∷ h) = written h ++ bytes
written (e ∷ h) = written h

-- The files that were renamed, the newest first.
pub moves : History → List (Bytes × Bytes)
moves [] = []
moves (renamed from to true ∷ h) = (from, to) ∷ moves h
moves (e ∷ h) = moves h

-- The file that the newest event removed, if it removed one.
pub newest_unlinked : History → Option Bytes
newest_unlinked (unlinked path ∷ h) = some path
newest_unlinked h = none

-- What the loop leaves: an answer, the bytes written, and nothing renamed, opened or closed.
record Looped (buf : Bytes) (off : ℕ) (h h' : History) (result : Option Bool) (done : Bool)
    : Type 0 where
  answer : result ≡ some done
  whole : done ≡ true → written h' ≡ written h ++ drop off buf
  holding : held h' ≡ held h
  moved : moves h' ≡ moves h

held_idle : (o : Option (List Resource)) → elim o [ none ↦ none | some rs ↦ some rs ] ≡ o
held_idle none = refl
held_idle (some rs) = refl

module _ (p : Platform) where
  stopped :
      (buf : Bytes) (off : ℕ) (h : History) → Looped buf off h (write_failed ∷ h) (some false) false
  unfolding written moves held
  stopped buf off h = record {
    answer = refl;
    whole = λ e. cc;
    holding = held_idle (held h);
    moved = refl;
  }

  -- A round that writes some bytes, and the rounds after it.
  went_on :
      (buf : Bytes) (off n : ℕ) (h h' : History) (result : Option Bool) (done : Bool)
      → Looped buf (off + n) (wrote (take n (drop off buf)) ∷ h) h' result done
      → Looped buf off h h' result done
  unfolding written moves held
  went_on buf off n h h' result done rest = record {
    answer = rest.answer;
    whole = λ e.
        rest.whole e
        ∙ append_assoc (written h) (take n (drop off buf)) (drop (off + n) buf)
        ∙ ap (λ t. written h ++ t)
            (ap (λ t. take n (drop off buf) ++ t) (sym (drop-drop off n buf))
              ∙ take-append-drop n (drop off buf));
    holding = rest.holding ∙ held_idle (held h);
    moved = rest.moved;
  }

  after_write-Looped :
      (buf : Bytes) (off : ℕ) (h : History) (w : ℤ) (again : ℕ → Command (Option Bool))
      → ((n : ℕ)
          → let h' = wrote (take (suc n) (drop off buf)) ∷ h in
            (done : Bool) × Looped buf
              (off + suc n)
              h'
              (again (suc n) h').1
              (again (suc n) h').0
              done)
      → let run = after_write p (drop off buf) w again h in
        (done : Bool) × Looped buf off h run.1 run.0 done
  unfolding after_write
  after_write-Looped buf off h (negsuc n) again rest = (false, stopped buf off h)
  after_write-Looped buf off h (pos zero) again rest = (false, stopped buf off h)
  after_write-Looped buf off h (pos (suc n)) again rest =
      let (done, looped) = rest n in (done, went_on buf off (suc n) h _ _ done looped)

  write_loop-Looped :
      (k : ℕ) (buf : Bytes) (off : ℕ) (h : History)
      → length buf - off < k
      → (done : Bool) × Looped buf off h
          (write_loop p k buf off h).1
          (write_loop p k buf off h).0
          done
  unfolding write_loop
  write_loop-Looped zero buf off h fuel = elim fuel [ ]
  write_loop-Looped (suc k) buf off h fuel = elim (Bool-cases (ltb off (length buf))) [
    | inl more ↦ rw more (
        after_write-Looped buf off h (p.writes h (drop off buf)) (λ n. write_loop p k buf (off + n))
          (λ n.
            write_loop-Looped k buf (off + suc n) (wrote (take (suc n) (drop off buf)) ∷ h)
              (ground arith)))
    | inr end ↦ rw end (
      true,
      record {
        answer = refl;
        whole = λ e. rw (drop_all off buf (ground arith)) (sym (append-nil (written h)));
        holding = refl;
        moved = refl;
      },
    )
  ]

  -- What the steps behind the loop do: the text moves to the target, or the temporary file goes.
  abbrev Finished : Bytes → History → History → Bool → Bool → Type 0
  Finished path h h' done r =
      (r ≡ true
        → (done ≡ true)
          × (moves h' ≡ (temporary path, path) ∷ moves h)
          × (written h' ≡ written h)
          × (h' ≡ renamed (temporary path) path true ∷ release (file (temporary path)) ∷ h)
          × (p.closes h ≡ true))
      × (r ≡ false → (moves h' ≡ moves h) × (newest_unlinked h' ≡ some (temporary path)))

  finish_write-Finished :
      (path : Bytes) (done : Bool) (h : History)
      → Finished path h (finish_write p path done h).1 done (finish_write p path done h).0
  unfolding finish_write written moves newest_unlinked
  finish_write-Finished path done h = ground arith

  -- The newest events are a close of the temporary file that succeeded, and then the rename.
  abbrev pub RenamedBehindClose : Bytes → History → Type 0
  RenamedBehindClose path h' =
      (g : History) × (h'
        ≡ renamed (temporary path) path true ∷ release (file (temporary path)) ∷ g)
      × (p.closes g ≡ true)

  abbrev Replaced : Bytes → Bytes → History → Option Bool × History → Type 0
  Replaced path buf h run =
      (r : Bool) × (run.0 ≡ some r)
      × (r ≡ true
          → (moves run.1 ≡ (temporary path, path) ∷ moves h)
            × (written run.1 ≡ buf)
            × RenamedBehindClose path run.1)
      × (r ≡ false
          → (moves run.1 ≡ moves h)
            × ((newest_unlinked run.1 ≡ some (temporary path))
                ⊎ (run.1 ≡ h)
                ⊎ (run.1 ≡ refused (file (temporary path)) ∷ h)))

  -- The answer of the loop is handed to the steps behind it.
  replace_opened :
      (k : ℕ) (path buf : Bytes) (h : History)
      → length buf < k
      → p.acquires h (file (temporary path)) ≡ true
      → leb 512 (length (temporary path)) ≡ false
      → Replaced path buf h (write_file_secure p k path buf h)
  unfolding write_file_secure after_loop written moves
  replace_opened k path buf h fuel opens short =
      let start = acquire (file (temporary path)) ∷ h in
      let (done, looped) = write_loop-Looped k buf 0 start (omega arith) in
      let after = (write_loop p k buf 0 start).1 in
      let finished = finish_write-Finished path done after in
      rw (short, opens, looped.answer)
        (
          (finish_write p path done after).0,
          refl,
          λ did.
              let (e, move, same, ends, closed) = finished.0 did in
              (
                move ∙ ap (λ m. (temporary path, path) ∷ m) looped.moved,
                same ∙ looped.whole e,
                (after, ends, closed),
              ),
          λ did_not. ground (arith, finished.1 did_not, looped.moved),
        )

-- The two answers as two cases.
by_result :
    (p : Platform) (path buf : Bytes) (h : History) (run : Option Bool × History)
    → Replaced p path buf h run
    → ((run.0 ≡ some true)
        × (moves run.1 ≡ (temporary path, path) ∷ moves h)
        × (written run.1 ≡ buf)
        × RenamedBehindClose p path run.1)
      ⊎ ((run.0 ≡ some false)
          × (moves run.1 ≡ moves h)
          × ((newest_unlinked run.1 ≡ some (temporary path))
              ⊎ (run.1 ≡ h)
              ⊎ (run.1 ≡ refused (file (temporary path)) ∷ h)))
by_result p path buf h run (true, answer, did, did_not) =
    let (move, text, close) = did refl in inl (answer, move, text, close)
by_result p path buf h run (false, answer, did, did_not) =
    inr (answer, (did_not refl).0, (did_not refl).1)

-- With a round for each byte and one more, `write_file_secure` ends. Where it returns true, the
-- temporary file was renamed to the target, as the only rename, when exactly the given text had
-- been written to it and its close had succeeded, with nothing in between; where it returns false, nothing was renamed, and the temporary file was
-- removed unless it could not be opened or its name is too long.
pub write_file_secure-replaces :
    (p : Platform) (k : ℕ) (path buf : Bytes) (h : History)
    → length buf < k
    → let run = write_file_secure p k path buf h in
      ((run.0 ≡ some true)
        × (moves run.1 ≡ (temporary path, path) ∷ moves h)
        × (written run.1 ≡ buf)
        × RenamedBehindClose p path run.1)
      ⊎ ((run.0 ≡ some false)
          × (moves run.1 ≡ moves h)
          × ((newest_unlinked run.1 ≡ some (temporary path))
              ⊎ (run.1 ≡ h)
              ⊎ (run.1 ≡ refused (file (temporary path)) ∷ h)))
unfolding write_file_secure moves
write_file_secure-replaces p k path buf h fuel =
    by_result p path buf h (write_file_secure p k path buf h)
      (elim (Bool-cases (leb 512 (length (temporary path)))) [
        | inl long ↦ rw long (false, refl, λ e. cc, λ e. (refl, inr (inl refl)))
        | inr short ↦ elim (Bool-cases (p.acquires h (file (temporary path)))) [
          | inl opens ↦ replace_opened p k path buf h fuel opens short
          | inr shut ↦ rw (short, shut) (false, refl, λ e. cc, λ e. (refl, inr (inr refl)))
        ]
      ])

module _ (p : Platform) where
  finish_write-Closes :
      (path : Bytes) (done : Bool) (h : History) (rs : List Resource)
      → held h ≡ some (file (temporary path) ∷ rs)
      → held (finish_write p path done h).1 ≡ some rs
  unfolding finish_write held
  finish_write-Closes path done h rs at = ground arith

  close_opened :
      (k : ℕ) (path buf : Bytes) (h : History) (rs : List Resource)
      → length buf < k
      → held h ≡ some rs
      → p.acquires h (file (temporary path)) ≡ true
      → leb 512 (length (temporary path)) ≡ false
      → held (write_file_secure p k path buf h).1 ≡ some rs
  unfolding write_file_secure after_loop held
  close_opened k path buf h rs fuel at opens short =
      let start = acquire (file (temporary path)) ∷ h in
      let (done, looped) = write_loop-Looped p k buf 0 start (omega arith) in
      rw (short, opens, looped.answer)
        (finish_write-Closes path done _ rs (looped.holding ∙ ground arith))

-- With enough rounds `write_file_secure` closes the file that it opened, on every path.
pub write_file_secure-Balanced :
    (p : Platform) (k : ℕ) (path buf : Bytes)
    → length buf < k
    → (h : History) (rs : List Resource) → held h ≡ some rs
    → held (write_file_secure p k path buf h).1 ≡ some rs
unfolding write_file_secure held
write_file_secure-Balanced p k path buf fuel h rs at =
    elim (Bool-cases (leb 512 (length (temporary path)))) [
      | inl long ↦ rw long at
      | inr short ↦ elim (Bool-cases (p.acquires h (file (temporary path)))) [
        | inl opens ↦ close_opened p k path buf h rs fuel at opens short
        | inr shut ↦ rw (short, shut) (ground arith)
      ]
    ]
