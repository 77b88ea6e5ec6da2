-- ===== src/GmailCalendar/Util/Percent.antt =====
-- `url_encode`: its room, its alphabet, and that a percent-decoder reads the input back.
use code_samples.Base.{
  ℕ, ◌+◌, ◌-◌, ◌*◌, ◌/◌, ◌%◌, ◌^◌, ◌≤◌, ◌<◌, ◌≡◌, refl, inl, inr, Bool, true, false, ◌||◌, Option,
  none, some, [], ◌∷◌, ◌++◌, append_assoc, arith, ◌==◌, leb, if◌then◌else◌, Bytes, IsCString,
  length, length-append, get_or, All, All-append, all_below, all_below_sound, eq_of_test,
  Bool-cases, ap,
}
use code_samples.Base.Int.{pos, to_int, to_int-pos}
use code_samples.GmailCalendar.Util.{is_unreserved, hex, url_loop, url_encode, minus_one}
use mathlib.Core.Option

-- A decoder of percent-encoded text, as RFC 3986 describes it: what it waits for is its state.
pub data Pending : Type 0 where
  plain : Pending
  percent : Pending
  nibble : ℕ → Pending

from_hex : ℕ → Option ℕ
from_hex c =
    if leb b'0' c
    then if leb c b'9'
      then some (c - b'0')
      else if leb b'A' c
      then if leb c b'F' then some (c - b'A' + 10) else none
      else none
    else none

pub decode : Bytes → Pending → Option Bytes
unfolding from_hex
decode [] plain = some []
decode [] percent = none
decode [] (nibble h) = none
decode (c ∷ s) plain =
    let escape = decode s percent in
    let copy = Option.map (λ t. c ∷ t) (decode s plain) in if c == b'%' then escape else copy
decode (c ∷ s) percent = elim (from_hex c) [ none ↦ none | some h ↦ decode s (nibble h) ]
decode (c ∷ s) (nibble h) = elim (from_hex c) [
  | none ↦ none
  | some l ↦ Option.map (λ t. (h * 16 + l) ∷ t) (decode s plain)
]

-- The bytes that one byte of the input costs.
unfoldable pub cost : Bytes → ℕ
unfolding is_unreserved
cost [] = 0
cost (c ∷ s) = (if is_unreserved c then 1 else 3) + cost s

-- What one byte of the input becomes.
escape : ℕ → Bytes
escape c =
    if is_unreserved c then c ∷ [] else b'%' ∷ get_or hex (c / 16) 0 ∷ get_or hex (c % 16) 0 ∷ []

escape_all : Bytes → Bytes
escape_all [] = []
escape_all (c ∷ s) = escape c ++ escape_all s

length-escape_all : (s : Bytes) → length (escape_all s) ≡ cost s
unfolding escape_all escape cost
length-escape_all [] = refl
length-escape_all (c ∷ s) = ground (arith, length-escape_all s)

-- The loop on a buffer that has room, and on one that has not.
url_loop-fits :
    (cap : ℕ) (s : Bytes) (w : ℕ) (out : Bytes)
    → w + cost s < cap
    → url_loop cap s w out
      ≡ record { ret = to_int (pos (w + cost s)); out = out ++ (escape_all s ++ 0 ∷ []) }
unfolding url_loop cost escape_all escape
url_loop-fits cap [] w out fits =
    let room : leb cap w ≡ false = ground arith in rw room (ground arith)
url_loop-fits cap (c ∷ s) w out fits = elim (Bool-cases (is_unreserved c)) [
  | inl safe ↦
      let room : leb cap (w + 1) ≡ false = ground arith in
      rw
        (
          safe,
          room,
          url_loop-fits cap s (w + 1) (out ++ c ∷ []) (ground arith),
          append_assoc out (c ∷ []),
        )
        (ground arith)
  | inr unsafe ↦
      let room : leb cap (w + 3) ≡ false = ground arith in
      rw (unsafe, room, url_loop-fits cap s (w + 3) _ (ground arith), append_assoc out)
        (ground arith)
]

url_loop-full :
    (cap : ℕ) (s : Bytes) (w : ℕ) (out : Bytes)
    → w ≡ length out
    → w ≤ cap
    → cap ≤ w + cost s
    → ((url_loop cap s w out).ret ≡ minus_one) × (length (url_loop cap s w out).out ≤ cap)
unfolding url_loop cost
url_loop-full cap [] w out here within full = ground arith
url_loop-full cap (c ∷ s) w out here within full =
    let e = b'%' ∷ get_or hex (c / 16) 0 ∷ get_or hex (c % 16) 0 ∷ [] in
    ground (
      arith,
      url_loop-full cap s (w + 1) (out ++ c ∷ []),
      length-append out (c ∷ []),
      length-append out e,
      url_loop-full cap s (w + 3) (out ++ e),
    )

-- Two hexadecimal digits stand for the byte that they were made from.
from_hex-hex : (n : ℕ) → n < 16 → from_hex (get_or hex n 0) ≡ some n
unfolding from_hex all_below
from_hex-hex n h = of_test (from_hex (get_or hex n 0)) (all_below_sound 16 same n table h)
  where
    same : ℕ → Bool
    same n = elim (from_hex (get_or hex n 0)) [ none ↦ false | some m ↦ m == n ]

    table : all_below 16 same ≡ true
    table = refl

    of_test : (o : Option ℕ) → elim o [ none ↦ false | some m ↦ m == n ] ≡ true → o ≡ some n
    of_test none t = cc
    of_test (some m) t = ap some (eq_of_test m n t)

decode-escape :
    (c : ℕ) (rest : Bytes)
    → c < 256
    → decode (escape c ++ rest) plain ≡ Option.map (λ t. c ∷ t) (decode rest plain)
unfolding decode escape is_unreserved
decode-escape c rest h = elim (Bool-cases (is_unreserved c)) [
  | inl safe ↦ rw safe (ground arith)
  | inr unsafe ↦
      rw (unsafe, from_hex-hex (c / 16) (omega arith), from_hex-hex (c % 16) (omega arith))
        (ground arith)
]

decode-escape_all : (s : Bytes) → IsCString s → decode (escape_all s) plain ≡ some s
unfolding escape_all
decode-escape_all [] ok = unfold decode in refl
decode-escape_all (c ∷ s) ok = rw (decode-escape c (escape_all s) ok.0.1, decode-escape_all s ok.1)

-- What may stand in a URL's query: an unreserved character, a percent sign or a hex digit.
abbrev pub IsUrlSafe : ℕ → Type 0
IsUrlSafe c = (is_unreserved c || c == b'%') ≡ true

hex-IsUrlSafe : (n : ℕ) → n < 16 → IsUrlSafe (get_or hex n 0)
unfolding is_unreserved all_below
hex-IsUrlSafe n h =
    all_below_sound 16 (λ m. is_unreserved (get_or hex m 0) || get_or hex m 0 == b'%') n refl h

escape_all-IsUrlSafe : (s : Bytes) → IsCString s → All IsUrlSafe (escape_all s)
unfolding escape_all escape
escape_all-IsUrlSafe [] ok = tt
escape_all-IsUrlSafe (c ∷ s) ok =
    All-append IsUrlSafe (escape c) (escape_all s)
      (elim (Bool-cases (is_unreserved c)) [
        | inl safe ↦ rw safe (rw safe refl, tt)
        | inr unsafe ↦
            let high = hex-IsUrlSafe (c / 16) (ground arith) in
            let low = hex-IsUrlSafe (c % 16) (omega arith) in
            rw unsafe (unfold is_unreserved in refl, (high, (low, tt)))
      ])
      (escape_all-IsUrlSafe s ok.1)

-- If a string costs less than the buffer holds, `url_encode` returns the number of bytes that it
-- wrote before the NUL; they are URL characters only, and a percent-decoder reads the string back.
pub decode-url_encode :
    (s : Bytes) (cap : ℕ)
    → IsCString s
    → cost s < cap
    → cap ≤ 2 ^ 31
    → (text : Bytes) × (url_encode s cap ≡ record { ret = pos (length text); out = text ++ 0 ∷ [] })
      × (length text < cap)
      × All IsUrlSafe text
      × (decode text plain ≡ some s)
unfolding url_encode
decode-url_encode s cap ok fits small = (
  escape_all s,
  rw
      (
        url_loop-fits cap s 0 [] (omega arith),
        length-escape_all s,
        to_int-pos (0 + cost s) (omega arith),
      )
      (ground arith),
  ground (arith, length-escape_all s),
  escape_all-IsUrlSafe s ok,
  decode-escape_all s ok,
)

-- If a string costs as much as the buffer holds, or more, `url_encode` returns -1 and has written
-- no byte past the buffer's end.
pub url_encode-full :
    (s : Bytes) (cap : ℕ)
    → cap ≤ cost s
    → ((url_encode s cap).ret ≡ minus_one) × (length (url_encode s cap).out ≤ cap)
unfolding url_encode
url_encode-full s cap full = url_loop-full cap s 0 [] refl (omega arith) (omega arith)
