-- ===== src/TimeEx.antt =====
-- c/TimeEx/timeex.c: the subtraction of seconds from a calendar time. The fields of `tm` are exact
-- integers; gmtime and mktime are parameters, and the loop over the months runs on fuel.
pub mod Borrow
mod Examples
use code_samples.Base.{
  ℕ, zero, suc, ◌==◌, Bool, true, false, not, ◌||◌, ◌&&◌, Option, none, some, if◌then◌else◌,
}
use code_samples.Base.Int.{ℤ, pos, negsuc, ◌+ℤ◌, ◌-ℤ◌, ◌/ℤ◌, ◌%ℤ◌, ltb_ℤ}

-- The fields of `tm` that the code reads and writes.
pub record Tm : Type 0 where
  pub tm_sec : ℤ
  pub tm_min : ℤ
  pub tm_hour : ℤ
  pub tm_mday : ℤ
  pub tm_mon : ℤ
  pub tm_year : ℤ

abbrev pub is_zero : ℤ → Bool
is_zero (pos n) = n == 0
is_zero (negsuc n) = false

abbrev pub is_negative : ℤ → Bool
is_negative (pos n) = false
is_negative (negsuc n) = true

unfoldable pub is_leap_year : ℤ → Bool
is_leap_year year = (is_zero (year %ℤ 4) && not (is_zero (year %ℤ 100))) || is_zero (year %ℤ 400)

-- The month before.
unfoldable pub previous_month : Tm → Tm
previous_month t =
    if is_zero t.tm_mon
    then record t { tm_mon = pos 11; tm_year = t.tm_year -ℤ pos 1 }
    else record t { tm_mon = t.tm_mon -ℤ pos 1 }

unfoldable pub days_in_month : Tm → ℤ
unfolding is_leap_year
days_in_month t =
    if is_zero (t.tm_mon %ℤ 2)
    then pos 30
    else if not (is_zero (t.tm_mon -ℤ pos 1))
    then pos 31
    else if is_leap_year t.tm_year
    then pos 29
    else pos 28

unfoldable pub mday_loop : (fuel : ℕ) → Tm → Option Tm
unfolding previous_month days_in_month
mday_loop zero t = none
mday_loop (suc k) t =
    let before = previous_month t in
    let rest =
      mday_loop k (record before { tm_mday = before.tm_mday +ℤ days_in_month before +ℤ pos 1 }) in
    if ltb_ℤ t.tm_mday (pos 1) then rest else some t

-- The minutes lend to the seconds, the hours to the minutes, the days to the hours.
unfoldable pub lend_minutes : Tm → Tm
lend_minutes t = record t {
  tm_min = t.tm_min +ℤ t.tm_sec /ℤ 60 -ℤ pos 1;
  tm_sec = pos 60 +ℤ t.tm_sec %ℤ 60;
}

unfoldable pub lend_hours : Tm → Tm
lend_hours t = record t {
  tm_hour = t.tm_hour +ℤ t.tm_min /ℤ 60 -ℤ pos 1;
  tm_min = pos 60 +ℤ t.tm_min %ℤ 60;
}

unfoldable pub lend_days : Tm → Tm
lend_days t = record t {
  tm_mday = t.tm_mday +ℤ t.tm_hour /ℤ 24;
  tm_hour = pos 24 +ℤ t.tm_hour %ℤ 24;
}

-- The three borrowings, each inside the one before; `none` for lack of fuel.
unfoldable pub borrow_days : (fuel : ℕ) → Tm → Option Tm
unfolding lend_days mday_loop
borrow_days fuel t = if is_negative t.tm_hour then mday_loop fuel (lend_days t) else some t

unfoldable pub borrow_hours : (fuel : ℕ) → Tm → Option Tm
unfolding lend_hours borrow_days
borrow_hours fuel t = if is_negative t.tm_min then borrow_days fuel (lend_hours t) else some t

unfoldable pub borrow_minutes : (fuel : ℕ) → Tm → Option Tm
unfolding lend_minutes borrow_hours
borrow_minutes fuel t = if is_negative t.tm_sec then borrow_hours fuel (lend_minutes t) else some t

-- `indefinite` is INDEFINITE_TIME.
unfoldable pub subtract_time :
    (fuel : ℕ) (gmtime : ℤ → Tm) (mktime : Tm → ℤ) (indefinite : ℤ) (base_time seconds : ℤ)
    → Option ℤ
unfolding borrow_minutes
subtract_time fuel gmtime mktime indefinite base_time seconds =
    let t = gmtime base_time in
    if ltb_ℤ (pos 0) seconds
    then elim (borrow_minutes fuel (record t { tm_sec = t.tm_sec -ℤ seconds })) [
      | none ↦ none
      | some t' ↦ some (mktime t')
    ]
    else some indefinite
