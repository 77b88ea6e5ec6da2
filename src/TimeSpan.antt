-- ===== src/TimeSpan.antt =====
-- c/TimeSpan/timespan.c: spans of time. Sums and products are exact: an `int` or `long` that
-- overflows is undefined in C. What is stored in an `int` is converted. A pointer that may be NULL
-- is an `Option`.
pub mod Normal
pub mod Timeout
mod Examples
use code_samples.Base.{ℕ, Option, none, some}
use code_samples.Base.Int.{ℤ, pos, ◌+ℤ◌, ◌*ℤ◌, ◌/ℤ◌, ◌%ℤ◌, to_int}

pub record TimeSpan : Type 0 where
  pub days : ℤ
  pub hours : ℤ
  pub minutes : ℤ
  pub seconds : ℤ
  pub milliseconds : ℤ

unfoldable pub get_timespan_total_seconds : Option TimeSpan → ℤ
get_timespan_total_seconds none = pos 0
get_timespan_total_seconds (some t) =
    ((t.days *ℤ pos 24 +ℤ t.hours) *ℤ pos 60 +ℤ t.minutes) *ℤ pos 60 +ℤ t.seconds

unfoldable pub get_timespan_total_milliseconds : Option TimeSpan → ℤ
unfolding get_timespan_total_seconds
get_timespan_total_milliseconds none = pos 0
get_timespan_total_milliseconds (some t) = get_timespan_total_seconds (some t) +ℤ t.milliseconds

-- The fields for a number of milliseconds.
unfoldable pub split_milliseconds : ℤ → TimeSpan
split_milliseconds total = record {
  days = to_int (total /ℤ 86400000);
  hours = to_int (total %ℤ 86400000 /ℤ 3600000);
  minutes = to_int (total %ℤ 86400000 %ℤ 3600000 /ℤ 60000);
  seconds = to_int (total %ℤ 86400000 %ℤ 3600000 %ℤ 60000 /ℤ 1000);
  milliseconds = to_int (total %ℤ 86400000 %ℤ 3600000 %ℤ 60000 %ℤ 1000);
}

unfoldable pub normalize_time_span : Option TimeSpan → Option TimeSpan
unfolding get_timespan_total_milliseconds split_milliseconds
normalize_time_span none = none
normalize_time_span (some t) = some (split_milliseconds (get_timespan_total_milliseconds (some t)))

-- What the uninitialised fields hold before the normalization are the first arguments.
unfoldable pub create_time_span :
    (junk_days junk_milliseconds : ℤ) (hours minutes seconds : ℤ) → TimeSpan
unfolding split_milliseconds get_timespan_total_milliseconds
create_time_span junk_days junk_milliseconds hours minutes seconds = split_milliseconds (
    get_timespan_total_milliseconds (
      some (record {
        days = junk_days;
        hours = hours;
        minutes = minutes;
        seconds = seconds;
        milliseconds = junk_milliseconds;
      })))
