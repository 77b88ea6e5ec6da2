-- ===== src/TimeSpan/Timeout.antt =====
-- RunUntilSuccessOrTimeout of c/TimeSpan/timespan.c. The arithmetic of `double`, the readings of
-- clock(), CLOCKS_PER_SEC and what the function returns in each round are arguments. The loop runs on
-- fuel.
use native.Mathlib.Nat.{zero-mul, suc-mul}
use code_samples.Base.{
  leb, ◌-◌, ◌≤◌, ◌*◌, ℕ, zero, suc, ◌+◌, ◌<◌, ◌≡◌, refl, Bool, true, false, not, Option, none, some,
  if◌then◌else◌, arith, ap, sym, ◌∙◌,
}
use mathlib.Core.Bool.{true≢false}
use code_samples.Base.Int.{ℤ, pos, negsuc, sub_ℕ, ltb_ℤ}

-- What the code does with a `double`.
pub record Double : Type 1 where
  pub W : Type 0
  pub is_positive : W → Bool
  pub divide : W → ℕ → W
  -- A number of ticks against a `double`.
  pub at_most : ℤ → W → Bool

-- The first reading of the clock is before the loop, each other one at the head of a round.
pub record Clock : Type 0 where
  pub reading : ℕ → ℕ
  pub clocks_per_sec : ℕ

module _ (d : Double) (clock : Clock) where
  -- `timeoutInSecs / CLOCKS_PER_SEC`, and the test at the head of the loop.
  abbrev pub timeout_in_clocks : d.W → d.W
  timeout_in_clocks timeout_in_secs = d.divide timeout_in_secs clock.clocks_per_sec

  abbrev pub in_time : d.W → (round : ℕ) → Bool
  in_time limit round = d.at_most (sub_ℕ (clock.reading (suc round)) (clock.reading 0)) limit

  unfoldable pub timeout_loop : d.W → (ℕ → ℤ) → (fuel round : ℕ) → (result : ℤ) → Option ℤ
  timeout_loop limit function zero round result = none
  timeout_loop limit function (suc k) round result =
      let again = timeout_loop limit function k (round + 1) (function round) in
      if not (in_time limit round)
      then some result
      else if ltb_ℤ (pos 0) (function round)
      then some (function round)
      else again

  abbrev pub normalized : ℤ → ℤ
  normalized result = if ltb_ℤ result (pos 0) then pos 0 else result

  abbrev pub normalize_if : Option ℤ → Option ℤ
  normalize_if none = none
  normalize_if (some result) = some (normalized result)

  -- A timeout that is not above zero and a NULL function are invalid.
  unfoldable pub run_until_success_or_timeout :
      (fuel : ℕ) → (timeout_in_secs : d.W) → Option (ℕ → ℤ) → Option ℤ
  unfolding timeout_loop
  run_until_success_or_timeout fuel timeout_in_secs none = some (negsuc 0)
  run_until_success_or_timeout fuel timeout_in_secs (some function) =
      let result = timeout_loop (timeout_in_clocks timeout_in_secs) function fuel 0 (pos 0) in
      if d.is_positive timeout_in_secs then normalize_if result else some (negsuc 0)

-- The first result above zero of `n` rounds, or zero.
unfoldable pub first_success : (ℕ → ℤ) → (n round : ℕ) → ℤ
first_success function zero round = pos 0
first_success function (suc n) round =
    let later = first_success function n (round + 1) in
    if ltb_ℤ (pos 0) (function round) then function round else later

-- What is not above zero is zero behind the end.
abbrev NotAbove : ℤ → Type 0
NotAbove r = ltb_ℤ (pos 0) r ≡ false

module _ (d : Double) (clock : Clock) (limit : d.W) (function : ℕ → ℤ) where
  normalized_low : (r : ℤ) → NotAbove r → normalized d clock r ≡ pos 0
  normalized_low (pos n) low = ground arith
  normalized_low (negsuc n) low = ground arith

  normalized_high : (r : ℤ) → ltb_ℤ (pos 0) r ≡ true → normalized d clock r ≡ r
  normalized_high (pos n) high = ground arith
  normalized_high (negsuc n) high = absurd (true≢false (sym high ∙ ground arith))

  -- One round in time.
  in_round :
      (b : Bool) (r later : ℤ) (again : Option ℤ)
      → ltb_ℤ (pos 0) r ≡ b
      → (b ≡ false → (x : ℤ) × (again ≡ some x) × (normalized d clock x ≡ later))
      → (x : ℤ) × ((if b then some r else again) ≡ some x)
        × (normalized d clock x ≡ (if b then r else later))
  in_round true r later again e ends = (r, refl, normalized_high r e)
  in_round false r later again e ends = ends refl

  timeout_loop-first_success :
      (n fuel round : ℕ) (result : ℤ)
      → n < fuel
      → ((i : ℕ) → i < n → in_time d clock limit (round + i) ≡ true)
      → in_time d clock limit (round + n) ≡ false
      → NotAbove result
      → (r : ℤ) × (timeout_loop d clock limit function fuel round result ≡ some r)
        × (normalized d clock r ≡ first_success function n round)
  unfolding timeout_loop first_success
  timeout_loop-first_success n zero round result below left over low = absurd (omega arith)
  timeout_loop-first_success zero (suc k) round result below left over low =
      let here : round ≡ round + 0 = omega arith in
      let late : in_time d clock limit round ≡ false = ap (in_time d clock limit) here ∙ over in
      (result, rw late refl, normalized_low result low)
  timeout_loop-first_success (suc n) (suc k) round result below left over low =
      let here : round ≡ round + 0 = omega arith in
      let early : in_time d clock limit round ≡ true =
        ap (in_time d clock limit) here ∙ left 0 (omega arith) in
      let there : round + 1 + n ≡ round + suc n = omega arith in
      rw early (
        in_round (ltb_ℤ (pos 0) (function round)) (function round)
          (first_success function n (round + 1)) _ refl
          (λ h.
            timeout_loop-first_success n k (round + 1) (function round) (omega arith)
              (next_left n round left) (ap (in_time d clock limit) there ∙ over) h))
    where
      next_left :
          (n' round' : ℕ)
          → ((i : ℕ) → i < suc n' → in_time d clock limit (round' + i) ≡ true)
          → (i : ℕ) → i < n'
          → in_time d clock limit (round' + 1 + i) ≡ true
      next_left n' round' left' i h =
          let there : round' + 1 + i ≡ round' + suc i = omega arith in
          ap (in_time d clock limit) there ∙ left' (suc i) (omega arith)

sub_ℕ_same : (a b : ℕ) → a ≡ b → sub_ℕ a b ≡ pos 0
sub_ℕ_same a b e = ground arith

sub_ℕ_above : (a b m : ℕ) → a ≡ b + suc m → sub_ℕ a b ≡ pos (suc m)
sub_ℕ_above a b m e = ground arith

-- For a function and a timeout above zero of fewer whole seconds than CLOCKS_PER_SEC: where the clock
-- stands until round `n` and has gone on then, and the fuel is more than `n`, the loop ends at that
-- first tick, however many seconds were asked for. The result is the first one above zero of the
-- rounds before, or zero. The comparison with the quotient of the numbers of type double is taken to
-- be that of the exact numbers.
pub run_until_success_or_timeout-first_tick :
    (d : Double) (clock : Clock) (function : ℕ → ℤ) (timeout_in_secs : d.W) (seconds n fuel : ℕ)
    → d.is_positive timeout_in_secs ≡ true
    → ((ticks : ℕ)
        → d.at_most (pos ticks) (d.divide timeout_in_secs clock.clocks_per_sec)
          ≡ leb (ticks * clock.clocks_per_sec) seconds)
    → seconds < clock.clocks_per_sec
    → ((i : ℕ) → i ≤ n → clock.reading i ≡ clock.reading 0)
    → clock.reading 0 < clock.reading (suc n)
    → n < fuel
    → run_until_success_or_timeout d clock fuel timeout_in_secs (some function)
      ≡ some (first_success function n 0)
unfolding run_until_success_or_timeout
run_until_success_or_timeout-first_tick d clock function timeout_in_secs seconds n fuel above exact
      short stands ticks enough =
    let limit = timeout_in_clocks d clock timeout_in_secs in
    let (r, e, same) =
      timeout_loop-first_success d clock limit function n fuel 0 (pos 0) enough early late
        (ground arith) in
    rw (above, run_until_success_or_timeout) (ap (normalize_if d clock) e ∙ ap some same)
  where
    early :
        (i : ℕ) → i < n → in_time d clock (timeout_in_clocks d clock timeout_in_secs) (0 + i) ≡ true
    early i below =
        let here : suc (0 + i) ≡ suc i = omega arith in
        let still : sub_ℕ (clock.reading (suc (0 + i))) (clock.reading 0) ≡ pos 0 =
          sub_ℕ_same (clock.reading (suc (0 + i))) (clock.reading 0)
            (ap clock.reading here ∙ stands (suc i) (omega arith)) in
        let fits : leb (0 * clock.clocks_per_sec) seconds ≡ true =
          rw (zero-mul clock.clocks_per_sec) (ground arith) in
        ap (λ x. d.at_most x (timeout_in_clocks d clock timeout_in_secs)) still ∙ exact 0 ∙ fits

    late : in_time d clock (timeout_in_clocks d clock timeout_in_secs) (0 + n) ≡ false
    late =
        let here : suc (0 + n) ≡ suc n = omega arith in
        let m = clock.reading (suc n) - clock.reading 0 - 1 in
        let passed : sub_ℕ (clock.reading (suc (0 + n))) (clock.reading 0) ≡ pos (suc m) =
          sub_ℕ_above (clock.reading (suc (0 + n))) (clock.reading 0) m
            (ap clock.reading here ∙ omega (arith, ticks)) in
        let product = suc-mul m clock.clocks_per_sec in
        let over : leb (suc m * clock.clocks_per_sec) seconds ≡ false = ground (arith, product) in
        ap (λ x. d.at_most x (timeout_in_clocks d clock timeout_in_secs)) passed
        ∙ exact (suc m)
        ∙ over
