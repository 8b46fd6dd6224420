-- ===== src/Metric/DateCounter.antt =====
-- StandardDateCounter of pkg/util/metric/date_counter.go: totals of the last days, newest first. The
-- clock enters as the instant of the last local midnight, in seconds: `time.Now()` with its time of
-- day cut off. Go's `int(d.Hours() / 24)` cuts the whole days off a duration, and a negative duration
-- gives 0 or less, so the truncated difference of instants serves. The mutex makes each method one step.
pub mod Ledger
pub mod Totals
pub mod ShortDay
use frp.Prelude.{
  ℕ, zero, suc, ◌+◌, ◌-◌, ◌/◌, ◌%◌, ◌^◌, List, [], ◌∷◌, ◌++◌, get_or, take, replicate, leb, ◌==◌,
  if◌then◌else◌,
}
use frp.Metric.Word.{mod64, add_word, sub_word}

pub record DateCounter : Type 0 where
  pub reserve_days : ℕ
  pub counts : List ℕ
  pub last_update : ℕ

abbrev pub day_seconds : ℕ
day_seconds = 86400

-- NewDateCounter and newStandardDateCounter
unfoldable pub new_date_counter : ℕ → ℕ → DateCounter
new_date_counter reserve_days now =
    let days = if leb reserve_days 0 then 1 else reserve_days in
    record { reserve_days = days; counts = replicate days 0; last_update = now }

-- The counts after a shift by `days`: zeros, then the old counts as far as there is room.
unfoldable pub shift : ℕ → ℕ → List ℕ → List ℕ
shift days reserve counts = replicate days 0 ++ take (reserve - days) counts

unfoldable pub rotate : ℕ → DateCounter → DateCounter
unfolding shift
rotate now c =
    let days = (now - c.last_update) / day_seconds in
    if days == 0
    then record c { last_update = now }
    else if leb c.reserve_days days
    then record c { counts = replicate c.reserve_days 0; last_update = now }
    else record c { counts = shift days c.reserve_days c.counts; last_update = now }

-- TodayCount
unfoldable pub today_count : ℕ → DateCounter → DateCounter × ℕ
unfolding rotate
today_count now c = let c' = rotate now c in (c', get_or c'.counts 0 0)

-- GetLastDaysCount
unfoldable pub get_last_days_count : ℕ → ℕ → DateCounter → DateCounter × List ℕ
unfolding rotate
get_last_days_count now last_days c =
    let days = if leb last_days c.reserve_days then last_days else c.reserve_days in
    let c' = rotate now c in (c', take days c'.counts)

-- `c.counts[0] = f(c.counts[0])`
abbrev pub at_head : (ℕ → ℕ) → List ℕ → List ℕ
at_head f [] = []
at_head f (n ∷ counts) = f n ∷ counts

-- Inc
unfoldable pub inc : ℕ → ℕ → DateCounter → DateCounter
unfolding rotate
inc now count c =
    let c' = rotate now c in record c' { counts = at_head (λ n. add_word mod64 n count) c'.counts }

-- Dec
unfoldable pub dec : ℕ → ℕ → DateCounter → DateCounter
unfolding rotate
dec now count c =
    let c' = rotate now c in record c' { counts = at_head (λ n. sub_word mod64 n count) c'.counts }

-- Snapshot does not rotate, and dates the copy with the present day.
unfoldable pub snapshot : ℕ → DateCounter → DateCounter
snapshot now c = record {
  reserve_days = c.reserve_days;
  counts = take c.reserve_days c.counts;
  last_update = now;
}

-- Clear
unfoldable pub clear : DateCounter → DateCounter
clear c = record c { counts = replicate c.reserve_days 0 }
