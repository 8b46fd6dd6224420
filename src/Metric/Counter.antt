-- ===== src/Metric/Counter.antt =====
-- StandardCounter of pkg/util/metric/counter.go: an int32 that wraps around.
use frp.Prelude.{ℕ, ◌<◌, ◌≡◌, arith}
use frp.Metric.Word.{mod32, add_word, sub_word}

pub record Counter : Type 0 where
  pub count : ℕ

unfoldable pub new_counter : Counter
new_counter = record { count = 0 }

-- Inc
unfoldable pub inc : Counter → ℕ → Counter
inc c n = record { count = add_word mod32 c.count n }

-- Dec adds the negated amount.
unfoldable pub dec : Counter → ℕ → Counter
dec c n = record { count = add_word mod32 c.count (sub_word mod32 0 n) }

-- Snapshot
unfoldable pub snapshot : Counter → Counter
snapshot c = record { count = c.count }

-- Clear
unfoldable pub clear : Counter → Counter
clear c = record { count = 0 }

-- Dec undoes Inc, also when the sum wraps around.
pub dec-inc : (c : Counter) (n : ℕ) → c.count < mod32 → n < mod32 → dec (inc c n) n ≡ c
unfolding dec inc
dec-inc c n h k = ground arith
