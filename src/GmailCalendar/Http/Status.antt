-- ===== src/GmailCalendar/Http/Status.antt =====
-- `parse_status_code`: digits are read as their value, anything else is refused.
use code_samples.Base.{
  ℕ, ◌+◌, ◌-◌, ◌*◌, ◌≤◌, ◌<◌, ◌≡◌, Bool, true, ◌&&◌, [], ◌∷◌, arith, Bytes, length, leb,
  if◌then◌else◌, ◌∙◌,
}
use code_samples.Base.Int.{pos, negsuc}
use code_samples.GmailCalendar.Http.{status_loop, parse_status_code}

abbrev pub is_digit : ℕ → Bool
is_digit c = leb b'0' c && leb c b'9'

unfoldable pub all_digits : Bytes → Bool
all_digits [] = true
all_digits (c ∷ s) = is_digit c && all_digits s

-- The power of ten that stands before the digits of a string.
unfoldable pub weight : Bytes → ℕ
weight [] = 1
weight (c ∷ s) = 10 * weight s

-- The number that a digit string spells: each digit counts its power of ten.
unfoldable pub decimal_value : Bytes → ℕ
unfolding weight
decimal_value [] = 0
decimal_value (c ∷ s) = (c - b'0') * weight s + decimal_value s

status_loop-value :
    (s : Bytes) (v : ℕ)
    → status_loop v s ≡ (if all_digits s then pos (v * weight s + decimal_value s) else negsuc 0)
unfolding status_loop all_digits decimal_value
status_loop-value [] v = ground arith
status_loop-value (c ∷ s) v = ground (arith, status_loop-value s (v * 10 + (c - b'0')))

-- `parse_status_code` of a digit string is the number that it spells, of any other string -1.
parse_status_code-value :
    (s : Bytes) → parse_status_code s ≡ (if all_digits s then pos (decimal_value s) else negsuc 0)
unfolding parse_status_code
parse_status_code-value s = status_loop-value s 0 ∙ ground arith

mul_mono : (a b w : ℕ) → a ≤ b → a * w ≤ b * w
mul_mono a b w h = grind arith

decimal_value-lt : (s : Bytes) → all_digits s ≡ true → decimal_value s < weight s
unfolding decimal_value all_digits
decimal_value-lt [] ok = omega arith
decimal_value-lt (c ∷ s) ok = ground (arith, decimal_value-lt s, mul_mono (c - b'0') 9 (weight s))

-- The code of a three-digit status is below 1000, so that the `int` of C holds it.
parse_status_code_bound :
    (s : Bytes)
    → length s ≡ 3
    → all_digits s ≡ true
    → (n : ℕ) × (parse_status_code s ≡ pos n) × (n < 1000)
unfolding weight
parse_status_code_bound [] three ok = absurd (omega arith)
parse_status_code_bound (a ∷ []) three ok = absurd (omega arith)
parse_status_code_bound (a ∷ b ∷ []) three ok = absurd (omega arith)
parse_status_code_bound (a ∷ b ∷ c ∷ []) three ok =
    let s = a ∷ b ∷ c ∷ [] in
    (decimal_value s, rw (parse_status_code-value s, ok), decimal_value-lt s ok)
parse_status_code_bound (a ∷ b ∷ c ∷ d ∷ s) three ok = absurd (omega arith)
