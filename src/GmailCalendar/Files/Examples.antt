-- ===== src/GmailCalendar/Files/Examples.antt =====
-- The file routines on a platform that writes two bytes at a time, and the theorems there.
use code_samples.Base.{
  ◌≤◌, ◌≡◌, ◌⊎◌, refl, true, false, some, [], ◌∷◌, ◌++◌, arith, Bytes, codes, length, if◌then◌else◌,
  leb, ℕ, zero, suc, take,
}
use code_samples.Base.Int.{pos, negsuc}
use code_samples.GmailCalendar.Platform.{
  held, Platform, acquire, refused, release, file, wrote, renamed,
}
use code_samples.GmailCalendar.Platform.Willing.{willing}
use code_samples.GmailCalendar.Files.{write_file_secure, read_file}
use code_samples.GmailCalendar.Files.Atomic.{
  write_file_secure-replaces, write_file_secure-Balanced, written, moves, newest_unlinked,
  RenamedBehindClose,
}
use code_samples.GmailCalendar.Files.Room.{read_file-Balanced, read_file-fits}

abbrev by_twos : Platform
by_twos = record willing {
  writes = λ h bytes. if leb 2 (length bytes) then pos 2 else pos (length bytes);
}

write_file_secure_runs : write_file_secure by_twos 4 (codes "f") (codes "abc") [] ≡ (
  some true,
  renamed (codes "f.tmp") (codes "f") true
      ∷ release (file (codes "f.tmp"))
      ∷ wrote (codes "c")
      ∷ wrote (codes "ab")
      ∷ acquire (file (codes "f.tmp"))
      ∷ [],
)
unfolding write_file_secure
write_file_secure_runs = refl

write_file_secure-replaces_example :
    let run = write_file_secure by_twos 4 (codes "f") (codes "abc") [] in
    ((run.0 ≡ some true)
      × (moves run.1 ≡ (codes "f.tmp", codes "f") ∷ moves [])
      × (written run.1 ≡ codes "abc")
      × RenamedBehindClose by_twos (codes "f") run.1)
    ⊎ ((run.0 ≡ some false)
        × (moves run.1 ≡ moves [])
        × ((newest_unlinked run.1 ≡ some (codes "f.tmp"))
            ⊎ (run.1 ≡ [])
            ⊎ (run.1 ≡ refused (file (codes "f.tmp")) ∷ [])))
write_file_secure-replaces_example =
    write_file_secure-replaces by_twos 4 (codes "f") (codes "abc") [] (omega arith)

write_file_secure-Balanced_example :
    held (write_file_secure by_twos 4 (codes "f") (codes "abc") []).1 ≡ some []
unfolding held
write_file_secure-Balanced_example =
    write_file_secure-Balanced by_twos 4 (codes "f") (codes "abc") (omega arith) [] [] refl

length-take_at_most : (n : ℕ) (s : Bytes) → length (take n s) ≤ n
length-take_at_most zero s = omega arith
length-take_at_most (suc n) [] = omega arith
length-take_at_most (suc n) (c ∷ s) = let rest = length-take_at_most n s in omega (arith, rest)

read_file-Balanced_example : held (read_file by_twos (codes "f") 10 []).1 ≡ some []
unfolding held
read_file-Balanced_example = read_file-Balanced by_twos (codes "f") 10 [] [] refl

-- A platform on which a file holds three bytes.
abbrev three_bytes : Platform
three_bytes = record by_twos { reads = λ h n. (take n (codes "abc"), false) }

read_file-fits_example :
    let r = (read_file three_bytes (codes "f") 10 []).0 in
    ((r.ret ≡ negsuc 0) × ((true ≡ false) ⊎ (false ≡ true)))
    ⊎ ((true ≡ true)
        × (false ≡ false)
        × (r.ret ≡ pos 3)
        × (r.out ≡ codes "abc" ++ 0 ∷ [])
        × (length r.out ≤ 10))
read_file-fits_example =
    read_file-fits three_bytes (codes "f") 10 [] (λ g n. length-take_at_most n (codes "abc"))
      (omega arith) (omega arith)
