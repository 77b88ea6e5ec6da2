-- ===== src/GmailCalendar/Util.antt =====
-- The text routines of c/gmail-calendar/src/util.c. A C string is the list of its bytes before the
-- NUL; an output buffer is the list of the bytes written to it, or its whole contents where the
-- code also reads it.
mod Examples
pub mod Percent
pub mod Base64
pub mod Strip
use code_samples.Base.{
  ℕ, zero, suc, ◌+◌, ◌-◌, ◌*◌, ◌/◌, ◌%◌, Bool, ◌||◌, ◌&&◌, Option, none, some, List, [], ◌∷◌, ◌++◌,
  ◌==◌, leb, ltb, if◌then◌else◌, Bytes, codes, length, get_or, set, drop,
}
use code_samples.Base.Int.{ℤ, pos, negsuc, to_int}

abbrev pub minus_one : ℤ
minus_one = negsuc 0

-- What a routine returns, and the bytes in its output buffer.
pub record Encoded : Type 0 where
  pub ret : ℤ
  pub out : Bytes

unfoldable pub is_unreserved : ℕ → Bool
is_unreserved c =
    leb b'A' c && leb c b'Z'
    || leb b'a' c && leb c b'z'
    || leb b'0' c && leb c b'9'
    || c == b'-'
    || c == b'_'
    || c == b'.'
    || c == b'~'

abbrev pub hex : Bytes
hex = codes "0123456789ABCDEF"

-- The loop of `url_encode`: `w` counts the bytes in `out`, which has room for `cap`.
unfoldable pub url_loop : (cap : ℕ) → Bytes → (w : ℕ) → Bytes → Encoded
unfolding is_unreserved
url_loop cap [] w out =
    if leb cap w
    then record { ret = minus_one; out = out }
    else record { ret = to_int (pos w); out = out ++ 0 ∷ [] }
url_loop cap (c ∷ s) w out =
    let copied = url_loop cap s (w + 1) (out ++ c ∷ []) in
    let escaped =
      url_loop cap s (w + 3) (out ++ b'%' ∷ get_or hex (c / 16) 0 ∷ get_or hex (c % 16) 0 ∷ []) in
    if is_unreserved c
    then if leb cap (w + 1) then record { ret = minus_one; out = out } else copied
    else if leb cap (w + 3)
    then record { ret = minus_one; out = out }
    else escaped

unfoldable pub url_encode : Bytes → (cap : ℕ) → Encoded
unfolding url_loop
url_encode s cap = url_loop cap s 0 []

-- The loop of `b64url_encode` over the `n` bytes at the front of `out`: it reads at `i` and writes
-- at `w` in the same buffer. The first argument counts the rounds left.
unfoldable pub url_alphabet_loop : ℕ → (i w : ℕ) → Bytes → ℕ × Bytes
url_alphabet_loop zero i w out = (w, out)
url_alphabet_loop (suc k) i w out =
    let c = get_or out i 0 in
    let d = if c == b'+' then b'-' else if c == b'/' then b'_' else c in
    let skipped = url_alphabet_loop k (i + 1) w out in
    let kept = url_alphabet_loop k (i + 1) (w + 1) (set out w d) in
    if c == b'=' then skipped else kept

-- `encode_block` is EVP_EncodeBlock: the text that it writes, or `none` for a negative return.
unfoldable pub b64url_encode :
    (encode_block : Bytes → Option Bytes) → Bytes → (buffer : Bytes) → (cap : ℕ) → Encoded
unfolding url_alphabet_loop
b64url_encode encode_block inp buffer cap =
    let enc_len = 4 * ((length inp + 2) / 3) in
    if ltb cap (enc_len + 1)
    then record { ret = minus_one; out = buffer }
    else elim (encode_block inp) [
      | none ↦ record { ret = minus_one; out = buffer }
      | some text ↦
          let n = length text in
          let (w, out) = url_alphabet_loop n 0 0 (text ++ 0 ∷ drop (n + 1) buffer) in
          record { ret = to_int (pos w); out = set out w 0 }
    ]

unfoldable pub is_trailing : ℕ → Bool
is_trailing c = c == b'\n' || c == b'\r' || c == b' ' || c == b'\t'

-- The loop of `rstrip` over the buffer of the string: `n` is the length that is left.
unfoldable pub rstrip_loop : ℕ → Bytes → Bytes
unfolding is_trailing
rstrip_loop zero s = s
rstrip_loop (suc n) s =
    let rest = rstrip_loop n (set s n 0) in if is_trailing (get_or s n 0) then rest else s

-- The string that a buffer holds: its bytes before the first NUL.
unfoldable pub c_string : Bytes → Bytes
c_string [] = []
c_string (c ∷ s) = if c == 0 then [] else c ∷ c_string s

unfoldable pub rstrip : Bytes → Bytes
unfolding rstrip_loop c_string
rstrip buffer = rstrip_loop (length (c_string buffer)) buffer
