-- ===== src/Metric/DateCounter/ShortDay.antt =====
-- A local day of 23 hours, when the clocks go forward.
use frp.Prelude.{ℕ, ◌+◌, ◌-◌, ◌/◌, ◌<◌, ◌≡◌, refl, arith}
use frp.Metric.Word.{mod64, add_word}
use frp.Metric.DateCounter.{DateCounter, inc, at_head, day_seconds}

-- If less than 24 hours lie between two midnights, as when the clocks go forward, the counts do not
-- move to the next day: what is added on the second day goes to the total of the first, which is
-- reported as the second day's.
pub inc_short_day :
    (c : DateCounter) (midnight count : ℕ)
    → c.last_update < midnight
    → midnight < c.last_update + day_seconds
    → inc midnight count c ≡ record {
      reserve_days = c.reserve_days;
      counts = at_head (λ n. add_word mod64 n count) c.counts;
      last_update = midnight;
    }
unfolding inc
inc_short_day c midnight count before after =
    let no_day : (midnight - c.last_update) / day_seconds ≡ 0 = omega arith in rw no_day refl
