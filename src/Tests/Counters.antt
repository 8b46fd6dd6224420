-- ===== src/Tests/Counters.antt =====
-- The counters of the statistics.
use frp.Prelude.{◌+◌, ◌-◌, ◌*◌, List, [], ◌∷◌, ◌≡◌, refl, arith, recent}
use frp.Metric.Counter
use frp.Metric.Counter.{Counter, dec-inc}
use frp.Metric.DateCounter.{DateCounter, get_last_days_count, inc, day_seconds}
use frp.Metric.DateCounter.Totals.{Entry, total_on, counter_of, get_last_days_count-total_on}
use frp.Metric.DateCounter.ShortDay.{inc_short_day}

dec-inc_example :
    Counter.dec (Counter.inc (record { count = 4294967295 }) 3) 3 ≡ record { count = 4294967295 }
dec-inc_example = dec-inc (record { count = 4294967295 }) 3 (omega arith) (omega arith)

-- 5 and 7 on day 20, 1 on day 22.
abbrev entries : List Entry
entries =
    record { day = 22; amount = 1 }
    ∷ record { day = 20; amount = 7 }
    ∷ record { day = 20; amount = 5 }
    ∷ []

report_on_day_23 :
    (get_last_days_count (23 * day_seconds) 4 (counter_of 7 20 entries)).1 ≡ 0 ∷ 1 ∷ 0 ∷ 12 ∷ []
unfolding get_last_days_count counter_of
report_on_day_23 = refl

get_last_days_count-total_on_example :
    (get_last_days_count ((20 + 4 - 1) * day_seconds) 4 (counter_of 7 20 entries)).1
    ≡ recent (total_on entries) 4 20
get_last_days_count-total_on_example =
    get_last_days_count-total_on 7 20 entries 4 20 (omega arith) (omega arith) (omega arith)
      (omega arith) (omega arith)

abbrev one_day : DateCounter
one_day = record { reserve_days = 2; counts = 5 ∷ 0 ∷ []; last_update = 86400 }

inc_short_day_example :
    inc (86400 + 82800) 3 one_day
    ≡ record { reserve_days = 2; counts = 8 ∷ 0 ∷ []; last_update = 86400 + 82800 }
inc_short_day_example = inc_short_day one_day (86400 + 82800) 3 (omega arith) (omega arith)
