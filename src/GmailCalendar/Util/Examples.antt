-- ===== src/GmailCalendar/Util/Examples.antt =====
-- The text routines at sample inputs, and the theorems there.
use code_samples.Base.{
  ℕ, ◌≡◌, ◌≤◌, ◌<◌, ◌+◌, ◌++◌, refl, Option, some, [], ◌∷◌, arith, Bytes, codes, length, All,
  replicate,
}
use code_samples.Base.Int.{pos, to_int}
use code_samples.GmailCalendar.Util.{minus_one, url_encode, b64url_encode, rstrip, c_string}
use code_samples.GmailCalendar.Util.Percent.{
  decode-url_encode, url_encode-full, cost, decode, plain, IsUrlSafe,
}
use code_samples.GmailCalendar.Util.Base64.{b64url_encode-spell, spell, url_safe}
use code_samples.GmailCalendar.Util.Strip.{rstrip-Stripped, Stripped}

url_encode_runs :
    url_encode (codes "a b/~") 16 ≡ record { ret = pos 9; out = codes "a%20b%2F~" ++ 0 ∷ [] }
unfolding url_encode to_int
url_encode_runs = refl

decode-url_encode_example :
    (text : Bytes) × (url_encode (codes "a b") 9
      ≡ record { ret = pos (length text); out = text ++ 0 ∷ [] })
    × (length text < 9)
    × All IsUrlSafe text
    × (decode text plain ≡ some (codes "a b"))
unfolding cost
decode-url_encode_example =
    decode-url_encode (codes "a b") 9 (omega arith) (omega arith) (omega arith)

url_encode-full_example :
    ((url_encode (codes "a b") 5).ret ≡ minus_one) × (length (url_encode (codes "a b") 5).out ≤ 5)
unfolding cost
url_encode-full_example = url_encode-full (codes "a b") 5 (omega arith)

-- A stand-in for EVP_EncodeBlock, at one input.
abbrev encode_one : Bytes → Option Bytes
encode_one inp = some (codes "+/A=")

b64url_encode_runs :
    b64url_encode encode_one (1 ∷ 2 ∷ []) (replicate 8 7) 8
    ≡ record { ret = pos 3; out = codes "-_A" ++ 0 ∷ 0 ∷ 7 ∷ 7 ∷ 7 ∷ [] }
unfolding b64url_encode to_int
b64url_encode_runs = refl

b64url_encode-spell_example :
    (more : Bytes) × (b64url_encode encode_one
        (1 ∷ 2 ∷ [])
        (replicate 8 7)
        (length (replicate {A = ℕ} 8 7))
      ≡ record { ret = pos 3; out = spell url_safe (62 ∷ 63 ∷ 0 ∷ []) ++ 0 ∷ more })
    × (3 + 1 + length more ≡ length (replicate {A = ℕ} 8 7))
b64url_encode-spell_example =
    b64url_encode-spell encode_one (1 ∷ 2 ∷ []) (replicate 8 7) (62 ∷ 63 ∷ 0 ∷ []) 1 refl
      (omega arith) refl (omega arith) (omega arith)

rstrip_runs : c_string (rstrip (codes "a b \r\n" ++ 0 ∷ [])) ≡ codes "a b"
unfolding rstrip
rstrip_runs = refl

rstrip-Stripped_example :
    (kept cut : Bytes) × (c_string (rstrip (codes "ab \n" ++ 0 ∷ 9 ∷ [])) ≡ kept)
    × Stripped (codes "ab \n") kept cut
rstrip-Stripped_example = rstrip-Stripped (codes "ab \n") (9 ∷ []) (omega arith)
