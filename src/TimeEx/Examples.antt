-- ===== src/TimeEx/Examples.antt =====
-- The borrowings at a quarter of an hour and a half minute.
use code_samples.Base.{ℕ, ◌+◌, ◌*◌, ◌≤◌, ◌≡◌, refl, some, arith}
use code_samples.Base.Int.{pos, negsuc}
use code_samples.TimeEx.{Tm, borrow_minutes, lend_days}
use code_samples.TimeEx.Borrow.{borrow_minutes-total, lend_days-gain}

-- 90 seconds before a quarter past three.
borrow_minutes-total_example :
    (m s : ℕ) × (borrow_minutes 0 (record {
      tm_sec = negsuc 89;
      tm_min = pos 15;
      tm_hour = pos 3;
      tm_mday = pos 9;
      tm_mon = pos 4;
      tm_year = pos 115;
    })
      ≡ some (record {
        tm_sec = pos s;
        tm_min = pos m;
        tm_hour = pos 3;
        tm_mday = pos 9;
        tm_mon = pos 4;
        tm_year = pos 115;
      }))
    × (1 ≤ s)
    × (s ≤ 60)
    × (60 * m + s + 90 ≡ 60 * 15)
borrow_minutes-total_example =
    borrow_minutes-total 0 15 89 (pos 3) (pos 9) (pos 4) (pos 115) (omega arith)

abbrev before_midnight : Tm
before_midnight = record {
  tm_sec = pos 0;
  tm_min = pos 0;
  tm_hour = negsuc 0;
  tm_mday = pos 9;
  tm_mon = pos 4;
  tm_year = pos 115;
}

lend_days-gain_example :
    (m h : ℕ) × ((lend_days before_midnight).tm_mday ≡ pos m)
    × ((lend_days before_midnight).tm_hour ≡ pos h)
    × (24 * m + h + 1 ≡ 24 * 9 + 24)
lend_days-gain_example = lend_days-gain before_midnight 9 0 refl refl (omega arith)
