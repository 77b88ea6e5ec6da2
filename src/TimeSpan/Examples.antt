-- ===== src/TimeSpan/Examples.antt =====
-- Spans, and the theorems at them.
use native.Mathlib.Nat.{one-mul}
use code_samples.Base.{
  leb, ap, ℕ, ◌+◌, ◌*◌, ◌/◌, ◌<◌, ◌≡◌, refl, Bool, true, ltb, if◌then◌else◌, some, arith,
}
use code_samples.Base.Int.{ℤ, pos, negsuc}
use code_samples.TimeSpan.Timeout.{
  Double, Clock, run_until_success_or_timeout, first_success,
  run_until_success_or_timeout-first_tick,
}
use code_samples.TimeSpan.{get_timespan_total_seconds, normalize_time_span, create_time_span}
use code_samples.TimeSpan.Normal.{span, normalize_time_span-span, total_seconds-create_time_span}

normalize_time_span-span_example :
    (d h m s ms : ℕ) × (normalize_time_span (some (span 1 30 0 5 7)) ≡ some (span d h m s ms))
    × (h < 24)
    × (m < 60)
    × (s < 60)
    × (ms < 1000)
    × ((((d * 24 + h) * 60 + m) * 60 + s) * 1000 + ms ≡ ((1 * 24 + 30) * 60 + 0) * 60 + 5 + 7)
normalize_time_span-span_example = normalize_time_span-span 1 30 0 5 7 (omega arith)

-- An hour and a second becomes three seconds.
total_seconds-create_time_span_example :
    get_timespan_total_seconds (some (create_time_span (pos 0) (pos 0) (pos 1) (pos 0) (pos 1)))
    ≡ pos (((1 * 60 + 0) * 60 + 1) / 1000)
total_seconds-create_time_span_example = total_seconds-create_time_span 1 0 1 (omega arith)

-- Whole seconds over a number of ticks, for `double`.
abbrev quotients : Double
quotients = record {
  W = ℕ × ℕ;
  is_positive = λ x. ltb 0 x.0;
  divide = λ x k. (x.0, x.1 * k);
  at_most = at_most;
}
  where
    at_most : ℤ → ℕ × ℕ → Bool
    at_most (pos n) x = leb (n * x.1) x.0
    at_most (negsuc n) x = true

-- A clock that ticks before the sixth round.
abbrev five_rounds : Clock
five_rounds = record { reading = λ i. if ltb i 6 then 70 else 71; clocks_per_sec = 1000000 }

abbrev third_time : ℕ → ℤ
third_time i = if ltb i 2 then negsuc 0 else pos i

-- A timeout of ten seconds.
run_until_success_or_timeout-first_tick_example :
    run_until_success_or_timeout quotients five_rounds 6 (10, 1) (some third_time)
    ≡ some (first_success third_time 5 0)
run_until_success_or_timeout-first_tick_example =
    run_until_success_or_timeout-first_tick quotients five_rounds third_time (10, 1) 10 5 6 refl
      (λ ticks. ap (λ k. leb k 10) (ap (λ k. ticks * k) (one-mul 1000000))) (omega arith)
      (λ i h. ground arith) (omega arith) (omega arith)

first_success_run : first_success third_time 5 0 ≡ pos 2
unfolding first_success
first_success_run = refl
