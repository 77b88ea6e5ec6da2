-- ===== src/TimeSpan/Normal.antt =====
-- What NormalizeTimeSpan makes of a span, and what CreateTimeSpan does to its arguments.
use code_samples.Base.{ℕ, ◌+◌, ◌*◌, ◌/◌, ◌%◌, ◌^◌, ◌<◌, ◌≡◌, ◌∙◌, ap, some, arith}
use code_samples.Base.Int.{pos, to_int-pos, add-pos, mul-pos, div-pos, mod-pos}
use code_samples.TimeSpan.{
  TimeSpan, get_timespan_total_seconds, get_timespan_total_milliseconds, split_milliseconds,
  normalize_time_span, create_time_span,
}

-- The span with given natural fields.
abbrev pub span : ℕ → ℕ → ℕ → ℕ → ℕ → TimeSpan
span d h m s ms = record {
  days = pos d;
  hours = pos h;
  minutes = pos m;
  seconds = pos s;
  milliseconds = pos ms;
}

split_milliseconds-pos :
    (n : ℕ)
    → n < 2 ^ 31
    → split_milliseconds (pos n)
      ≡ span
          (n / 86400000)
          (n % 86400000 / 3600000)
          (n % 86400000 % 3600000 / 60000)
          (n % 86400000 % 3600000 % 60000 / 1000)
          (n % 86400000 % 3600000 % 60000 % 1000)
unfolding split_milliseconds
split_milliseconds-pos n small =
    let day = n % 86400000 in
    let hour = day % 3600000 in
    let minute = hour % 60000 in
    rw (
      div-pos n 86400000,
      mod-pos n 86400000,
      div-pos day 3600000,
      mod-pos day 3600000,
      div-pos hour 60000,
      mod-pos hour 60000,
      div-pos minute 1000,
      mod-pos minute 1000,
      to_int-pos (n / 86400000) (omega arith),
      to_int-pos (day / 3600000) (omega arith),
      to_int-pos (hour / 60000) (omega arith),
      to_int-pos (minute / 1000) (omega arith),
      to_int-pos (minute % 1000) (omega arith),
    )

total-span :
    (d h m s ms : ℕ)
    → get_timespan_total_seconds (some (span d h m s ms)) ≡ pos (((d * 24 + h) * 60 + m) * 60 + s)
unfolding get_timespan_total_seconds
total-span d h m s ms = rw (
  mul-pos d 24,
  add-pos (d * 24) h,
  mul-pos (d * 24 + h) 60,
  add-pos ((d * 24 + h) * 60) m,
  mul-pos ((d * 24 + h) * 60 + m) 60,
  add-pos (((d * 24 + h) * 60 + m) * 60) s,
)

total_milliseconds-span :
    (d h m s ms : ℕ)
    → get_timespan_total_milliseconds (some (span d h m s ms))
      ≡ pos (((d * 24 + h) * 60 + m) * 60 + s + ms)
unfolding get_timespan_total_milliseconds
total_milliseconds-span d h m s ms =
    rw (total-span d h m s ms, add-pos (((d * 24 + h) * 60 + m) * 60 + s) ms)

-- NormalizeTimeSpan of a span with natural fields gives one with hours below 24, minutes and seconds
-- below 60 and milliseconds below 1000, which has as many milliseconds, counted with 1000 in a
-- second, as the span has seconds and milliseconds together, if these are fewer than 2 ^ 31.
pub normalize_time_span-span :
    (d h m s ms : ℕ)
    → ((d * 24 + h) * 60 + m) * 60 + s + ms < 2 ^ 31
    → (d' h' m' s' ms' : ℕ) × (normalize_time_span (some (span d h m s ms))
        ≡ some (span d' h' m' s' ms'))
      × (h' < 24)
      × (m' < 60)
      × (s' < 60)
      × (ms' < 1000)
      × ((((d' * 24 + h') * 60 + m') * 60 + s') * 1000 + ms'
          ≡ ((d * 24 + h) * 60 + m) * 60 + s + ms)
unfolding normalize_time_span
normalize_time_span-span d h m s ms small =
    let n = ((d * 24 + h) * 60 + m) * 60 + s + ms in
    let day = n % 86400000 in
    let hour = day % 3600000 in
    let minute = hour % 60000 in
    (
      n / 86400000,
      day / 3600000,
      hour / 60000,
      minute / 1000,
      minute % 1000,
      rw (total_milliseconds-span d h m s ms) (ap some (split_milliseconds-pos n small)),
      omega arith,
      omega arith,
      omega arith,
      omega arith,
      omega arith,
    )

-- CreateTimeSpan takes the seconds of its arguments for milliseconds: with the uninitialised fields
-- 0, the span that it returns has a thousandth of the seconds asked for, rounded down.
pub total_seconds-create_time_span :
    (h m s : ℕ)
    → (h * 60 + m) * 60 + s < 2 ^ 31
    → get_timespan_total_seconds (some (create_time_span (pos 0) (pos 0) (pos h) (pos m) (pos s)))
      ≡ pos (((h * 60 + m) * 60 + s) / 1000)
unfolding create_time_span
total_seconds-create_time_span h m s small =
    let n = ((0 * 24 + h) * 60 + m) * 60 + s + 0 in
    let created =
      ap split_milliseconds (total_milliseconds-span 0 h m s 0)
      ∙ split_milliseconds-pos n (omega arith) in
    ap (λ t. get_timespan_total_seconds (some t)) created
    ∙ total-span (n / 86400000) (n % 86400000 / 3600000) (n % 86400000 % 3600000 / 60000)
        (n % 86400000 % 3600000 % 60000 / 1000) (n % 86400000 % 3600000 % 60000 % 1000)
    ∙ ap pos (omega arith)
