-- ===== src/Metric/DateCounter/Totals.antt =====
-- What a counter reports is the total of each day, for any sequence of additions on days that do not
-- go backwards.
use frp.Prelude.{
  true, ==_iff, false, ℕ, zero, suc, ◌+◌, ◌-◌, ◌*◌, ◌≤◌, ◌<◌, ◌≡◌, ◌≢◌, refl, ap, sym, ◌∙◌, List,
  [], ◌∷◌, take, recent, leb, ◌==◌, if◌then◌else◌, arith,
}
use frp.Metric.Word.{mod64, add_word}
use frp.Metric.DateCounter.{
  DateCounter, new_date_counter, rotate, inc, at_head, get_last_days_count, day_seconds,
}
use frp.Metric.DateCounter.Ledger.{Represents, rotate-Represents, take-recent, recent-quiet}

-- An amount added on a day.
pub record Entry : Type 0 where
  pub day : ℕ
  pub amount : ℕ

-- The sum of a day's amounts, as an int64; the newest entry stands first.
abbrev pub total_on : List Entry → ℕ → ℕ
total_on [] d = 0
total_on (e ∷ es) d = if e.day == d then add_word mod64 (total_on es d) e.amount else total_on es d

-- The day of the newest entry, `first` if there is none.
abbrev pub last_day : ℕ → List Entry → ℕ
last_day first [] = first
last_day first (e ∷ es) = e.day

-- The days do not go backwards, and start at `first`.
abbrev pub Ordered : ℕ → List Entry → Type 0
Ordered first [] = Unit
Ordered first (e ∷ es) = (last_day first es ≤ e.day) × Ordered first es

-- The counter made on the day `first`, after `Inc` on the midnight of each entry's day.
unfoldable pub counter_of : ℕ → ℕ → List Entry → DateCounter
unfolding inc new_date_counter
counter_of reserve first [] = new_date_counter reserve (first * day_seconds)
counter_of reserve first (e ∷ es) = inc (e.day * day_seconds) e.amount (counter_of reserve first es)

recent_congr :
    (f g : ℕ → ℕ) (k n : ℕ) → ((d : ℕ) → d < n + k → f d ≡ g d) → recent f k n ≡ recent g k n
recent_congr f g zero n same = refl
recent_congr f g (suc k) n same =
    rw (same (n + k) (omega arith))
      (ap (λ l. g (n + k) ∷ l) (recent_congr f g k n (λ d h. same d (omega arith))))

at_head-recent :
    (f g : ℕ → ℕ) (change : ℕ → ℕ) (k n today : ℕ)
    → n + k ≡ today + 1
    → 0 < k
    → g today ≡ change (f today)
    → ((d : ℕ) → d < today → f d ≡ g d)
    → at_head change (recent f k n) ≡ recent g k n
at_head-recent f g change zero n today days pos_k now before = absurd (omega arith)
at_head-recent f g change (suc k) n today days pos_k now before =
    let day : n + k ≡ today = omega arith in
    rw (day, now)
      (ap (λ l. change (f today) ∷ l) (recent_congr f g k n (λ d h. before d (omega arith))))

pub new_date_counter-Represents :
    (reserve first : ℕ)
    → 0 < reserve
    → reserve ≤ first + 1
    → Represents (λ _. 0) first (new_date_counter reserve (first * day_seconds))
unfolding new_date_counter
new_date_counter-Represents reserve first h k =
    let e : leb reserve 0 ≡ false = ground arith in
    rw e (record {
      first = first + 1 - reserve;
      reserved = h;
      days = omega arith;
      counts = recent-quiet (λ _. 0) reserve (first + 1 - reserve) (λ d p. refl);
      updated = refl;
      quiet = λ d p. refl;
    })

pub head-Represents :
    (f g : ℕ → ℕ) (change : ℕ → ℕ) (today : ℕ) (c : DateCounter)
    → g today ≡ change (f today)
    → ((d : ℕ) → d ≢ today → f d ≡ g d)
    → Represents f today c
    → Represents g today (record c { counts = at_head change c.counts })
head-Represents f g change today c now other r = record {
  first = r.first;
  reserved = r.reserved;
  days = r.days;
  counts =
      ap (at_head change) r.counts
      ∙ at_head-recent f g change c.reserve_days r.first today r.days r.reserved now
          (λ d h. other d (omega arith));
  updated = r.updated;
  quiet = λ d p. sym (other d (omega arith)) ∙ r.quiet d p;
}

pub total_on_today :
    (e : Entry) (es : List Entry)
    → total_on (e ∷ es) e.day ≡ add_word mod64 (total_on es e.day) e.amount
total_on_today e es = rw ((==_iff e.day e.day).1 refl)

pub total_on_other :
    (e : Entry) (es : List Entry) (d : ℕ) → d ≢ e.day → total_on es d ≡ total_on (e ∷ es) d
total_on_other e es d h = let test : (e.day == d) ≡ false = ground arith in rw test

counter_of-Represents :
    (reserve first : ℕ) (es : List Entry)
    → 0 < reserve
    → reserve ≤ first + 1
    → Ordered first es
    → Represents (total_on es) (last_day first es) (counter_of reserve first es)
unfolding counter_of
counter_of-Represents reserve first [] h k ordered = new_date_counter-Represents reserve first h k
counter_of-Represents reserve first (e ∷ es) h k (later, ordered) =
    head-Represents (total_on es) (total_on (e ∷ es)) (λ n. add_word mod64 n e.amount) e.day
      (rotate (e.day * day_seconds) (counter_of reserve first es)) (total_on_today e es)
      (total_on_other e es)
      (rotate-Represents (total_on es) (last_day first es) e.day (counter_of reserve first es)
        (counter_of-Represents reserve first es h k ordered) later)

pub take-counts :
    (f : ℕ → ℕ) (today last_days n : ℕ) (c : DateCounter)
    → Represents f today c
    → last_days ≤ c.reserve_days
    → n + last_days ≡ today + 1
    → take last_days c.counts ≡ recent f last_days n
take-counts f today last_days n c r fits days =
    let e : c.reserve_days - last_days + last_days ≡ c.reserve_days = omega arith in
    let d : r.first + (c.reserve_days - last_days) ≡ n = omega (arith, r.days) in
    ap (take last_days) r.counts
    ∙ rw d at (rw e at (take-recent f (c.reserve_days - last_days) last_days r.first))

pub reserve_days-rotate : (now : ℕ) (c : DateCounter) → (rotate now c).reserve_days ≡ c.reserve_days
unfolding rotate
reserve_days-rotate now c = ground arith

reserve_days-counter_of :
    (reserve first : ℕ) (es : List Entry)
    → 0 < reserve
    → (counter_of reserve first es).reserve_days ≡ reserve
unfolding counter_of
reserve_days-counter_of reserve first [] h = ground arith
reserve_days-counter_of reserve first (e ∷ es) h =
    reserve_days-rotate (e.day * day_seconds) (counter_of reserve first es)
    ∙ reserve_days-counter_of reserve first es h

-- After additions on days that do not go backwards from the day `first` on, the counter reports on the
-- day n + last_days - 1, for each of its last days, newest first, the sum modulo 2^64 of what was added
-- on that day.
pub get_last_days_count-total_on :
    (reserve first : ℕ) (es : List Entry) (last_days n : ℕ)
    → 0 < reserve
    → reserve ≤ first + 1
    → Ordered first es
    → last_days ≤ reserve
    → last_day first es + 1 ≤ n + last_days
    → (get_last_days_count
        ((n + last_days - 1) * day_seconds)
        last_days
        (counter_of reserve first es)).1
      ≡ recent (total_on es) last_days n
unfolding get_last_days_count
get_last_days_count-total_on reserve first es last_days n h k ordered fits later =
    let c = counter_of reserve first es in
    let today : ℕ = n + last_days - 1 in
    let size = reserve_days-counter_of reserve first es h in
    let test : leb last_days c.reserve_days ≡ true = rw size (ground arith) in
    rw test (
      take-counts (total_on es) today last_days n (rotate (today * day_seconds) c)
        (rotate-Represents (total_on es) (last_day first es) today c
          (counter_of-Represents reserve first es h k ordered) (omega arith))
        (rw (reserve_days-rotate (today * day_seconds) c, size) fits) (omega arith))
