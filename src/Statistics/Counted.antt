-- ===== src/Statistics/Counted.antt =====
-- A counter of seven days that holds the entries of a list, none of them later than a day.
use frp.Prelude.{
  ℕ, ◌+◌, ◌*◌, ◌≤◌, ◌≡◌, refl, ◌∙◌, List, [], ◌∷◌, take, get_or, recent, arith, true, leb,
}
use frp.Metric.Word.{mod64, add_word}
use frp.Metric.DateCounter.{
  DateCounter, new_date_counter, rotate, inc, today_count, get_last_days_count, day_seconds,
}
use frp.Metric.DateCounter.Ledger.{Represents, rotate-Represents}
use frp.Metric.DateCounter.Totals.{
  Entry, total_on, total_on_today, total_on_other, new_date_counter-Represents, head-Represents,
  take-counts, reserve_days-rotate,
}
use frp.Statistics.{reserve_days}

pub record Counted (entries : List Entry) (day : ℕ) (c : DateCounter) : Type 0 where
  pub since : ℕ
  pub not_later : since ≤ day
  pub days : c.reserve_days ≡ reserve_days
  pub represents : Represents (total_on entries) since c

pub Counted-later :
    (entries : List Entry) (day later : ℕ) (c : DateCounter)
    → day ≤ later
    → Counted entries day c
    → Counted entries later c
Counted-later entries day later c h k = record {
  since = k.since;
  not_later = omega (arith, k.not_later);
  days = k.days;
  represents = k.represents;
}

pub new-Counted :
    (day : ℕ)
    → reserve_days ≤ day + 1
    → Counted [] day (new_date_counter reserve_days (day * day_seconds))
unfolding new_date_counter
new-Counted day room = record {
  since = day;
  not_later = omega arith;
  days = refl;
  represents = new_date_counter-Represents 7 day (omega arith) room;
}

pub rotate-Counted :
    (entries : List Entry) (day : ℕ) (c : DateCounter)
    → Counted entries day c
    → Counted entries day (rotate (day * day_seconds) c)
rotate-Counted entries day c k = record {
  since = day;
  not_later = omega arith;
  days = reserve_days-rotate (day * day_seconds) c ∙ k.days;
  represents = rotate-Represents (total_on entries) k.since day c k.represents k.not_later;
}

pub inc-Counted :
    (entries : List Entry) (day bytes : ℕ) (c : DateCounter)
    → Counted entries day c
    → Counted (record { day = day; amount = bytes } ∷ entries) day (inc (day * day_seconds) bytes c)
unfolding inc
inc-Counted entries day bytes c k =
    let e : Entry = record { day = day; amount = bytes } in
    let rotated = rotate-Counted entries day c k in
    record {
      since = day;
      not_later = omega arith;
      days = rotated.days;
      represents =
          head-Represents (total_on entries) (total_on (e ∷ entries)) (λ n. add_word mod64 n bytes)
            day (rotate (day * day_seconds) c) (total_on_today e entries) (total_on_other e entries)
            (rotate-Represents (total_on entries) k.since day c k.represents k.not_later);
    }

pub get_last_days_count-Counted :
    (entries : List Entry) (n : ℕ) (c : DateCounter)
    → Counted entries (n + 6) c
    → (get_last_days_count ((n + 6) * day_seconds) 7 c).1 ≡ recent (total_on entries) 7 n
unfolding get_last_days_count
get_last_days_count-Counted entries n c k =
    let rotated = rotate-Counted entries (n + 6) c k in
    let test : leb 7 c.reserve_days ≡ true = rw k.days refl in
    rw test (
      take-counts (total_on entries) (n + 6) 7 n (rotate ((n + 6) * day_seconds) c)
        (rotate-Represents (total_on entries) k.since (n + 6) c k.represents k.not_later)
        (rw rotated.days (omega arith)) (omega arith))

get_or-take : (l : List ℕ) (n : ℕ) (rest : List ℕ) → take 1 l ≡ n ∷ rest → get_or l 0 0 ≡ n
get_or-take [] n rest e = cc
get_or-take (a ∷ l) n rest e = cc

-- The count of the present day is the day's total.
pub today_count-Counted :
    (entries : List Entry) (day : ℕ) (c : DateCounter)
    → Counted entries day c
    → (today_count (day * day_seconds) c).1 ≡ total_on entries day
unfolding today_count
today_count-Counted entries day c k =
    let rotated = rotate-Counted entries day c k in
    let c' = rotate (day * day_seconds) c in
    let first_day : day + 0 ≡ day = omega arith in
    get_or-take c'.counts (total_on entries day) [] (
      rw first_day at (
        take-counts (total_on entries) day 1 day c'
          (rotate-Represents (total_on entries) k.since day c k.represents k.not_later)
          (rw rotated.days (omega arith)) (omega arith)))
