-- ===== src/TimeEx/Borrow.antt =====
-- What the borrowings of SubtractTime keep.
use code_samples.Base.{ℕ, suc, ◌+◌, ◌-◌, ◌*◌, ◌/◌, ◌%◌, ◌≤◌, ◌≡◌, refl, some, arith}
use code_samples.Base.Int.{ℤ, pos, negsuc, sub_ℕ, ◌+ℤ◌, ◌-ℤ◌, ◌/ℤ◌, ◌%ℤ◌}
use code_samples.TimeEx.{Tm, lend_minutes, lend_days, borrow_hours, borrow_minutes}

quotient : (n : ℕ) → negsuc n /ℤ 60 ≡ sub_ℕ 0 (suc n / 60)
unfolding ◌/ℤ◌
quotient n = refl

lent : (m k : ℕ) → k + 1 ≤ m → pos m +ℤ sub_ℕ 0 k -ℤ pos 1 ≡ pos (m - k - 1)
unfolding ◌+ℤ◌ ◌-ℤ◌
lent m k enough = ground arith

lent_minutes :
    (m n : ℕ) → suc n / 60 + 1 ≤ m → pos m +ℤ negsuc n /ℤ 60 -ℤ pos 1 ≡ pos (m - suc n / 60 - 1)
lent_minutes m n enough = rw (quotient n) (lent m (suc n / 60) enough)

lent_seconds : (n : ℕ) → pos 60 +ℤ negsuc n %ℤ 60 ≡ pos (60 - suc n % 60)
unfolding ◌+ℤ◌ ◌%ℤ◌
lent_seconds n = ground arith

-- Where the seconds are negative and the minutes hold enough, SubtractTime takes minutes for them,
-- and minutes and seconds together stay as many seconds; the new seconds are from 1 to 60, and the
-- other fields stay.
pub borrow_minutes-total :
    (fuel m n : ℕ) (hour mday mon year : ℤ)
    → suc n ≤ 60 * (m - 1)
    → (m' s' : ℕ) × (borrow_minutes fuel (record {
      tm_sec = negsuc n;
      tm_min = pos m;
      tm_hour = hour;
      tm_mday = mday;
      tm_mon = mon;
      tm_year = year;
    })
        ≡ some (record {
          tm_sec = pos s';
          tm_min = pos m';
          tm_hour = hour;
          tm_mday = mday;
          tm_mon = mon;
          tm_year = year;
        }))
      × (1 ≤ s')
      × (s' ≤ 60)
      × (60 * m' + s' + suc n ≡ 60 * m)
unfolding borrow_minutes borrow_hours lend_minutes
borrow_minutes-total fuel m n hour mday mon year enough = (
  m - suc n / 60 - 1,
  60 - suc n % 60,
  rw (lent_minutes m n (omega arith), lent_seconds n),
  omega arith,
  omega arith,
  omega arith,
)

lent_whole : (m k : ℕ) → k ≤ m → pos m +ℤ sub_ℕ 0 k ≡ pos (m - k)
unfolding ◌+ℤ◌
lent_whole m k enough = ground arith

lent_days : (m n : ℕ) → suc n / 24 ≤ m → pos m +ℤ negsuc n /ℤ 24 ≡ pos (m - suc n / 24)
unfolding ◌/ℤ◌
lent_days m n enough = lent_whole m (suc n / 24) enough

lent_hours : (n : ℕ) → pos 24 +ℤ negsuc n %ℤ 24 ≡ pos (24 - suc n % 24)
unfolding ◌+ℤ◌ ◌%ℤ◌
lent_hours n = ground arith

-- Where the hours are negative and the days hold enough, SubtractTime adds whole days to the hours
-- without taking one more day, as it does with minutes and hours: days and hours together gain 24
-- hours.
pub lend_days-gain :
    (t : Tm) (m n : ℕ)
    → t.tm_mday ≡ pos m
    → t.tm_hour ≡ negsuc n
    → suc n ≤ 24 * m
    → (m' h' : ℕ) × ((lend_days t).tm_mday ≡ pos m')
      × ((lend_days t).tm_hour ≡ pos h')
      × (24 * m' + h' + suc n ≡ 24 * m + 24)
unfolding lend_days
lend_days-gain t m n days hours enough = (
  m - suc n / 24,
  24 - suc n % 24,
  rw (days, hours) (lent_days m n (omega arith)),
  rw hours (lent_hours n),
  omega arith,
)
