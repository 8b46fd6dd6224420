-- ===== src/Calendar/Laws.antt =====
-- The calendar counts: a date's number of days is got back from its year, month and day.
use native.Mathlib.Numerals.{towards_suc}
use frp.Prelude.{
  ℕ, zero, suc, ◌+◌, ◌-◌, ◌≤◌, ◌≡◌, refl, ap, true, false, ◌∙◌, ◌<◌, inl, inr, ltb, Bool-cases,
  arith, pos, pos_part, sub_ℕ, negsuc, ◌+ℤ◌,
}
use frp.Calendar.{
  Date, year_length, month_length, year_start, month_start, day_number, next_date, date_of,
  new_date,
}

pub record IsDate (d : Date) : Type 0 where
  pub epoch : 1970 ≤ d.year
  pub month_le : d.month ≤ 11
  pub day_pos : 1 ≤ d.day
  pub day_le : d.day ≤ month_length d.year d.month

month_length_pos : (y m : ℕ) → 1 ≤ month_length y m
unfolding month_length
month_length_pos y m = ground arith

next_date-IsDate : (d : Date) → IsDate d → IsDate (next_date d)
unfolding next_date
next_date-IsDate d h =
    ground (arith, month_length_pos (d.year) (d.month + 1), month_length_pos (d.year + 1) 0)

pub date_of-IsDate : (n : ℕ) → IsDate (date_of n)
unfolding date_of month_length
date_of-IsDate zero = ground arith
date_of-IsDate (suc n) = next_date-IsDate (date_of n) (date_of-IsDate n)

abbrev ordinal : Date → ℕ
ordinal d = day_number d.year d.month + d.day - 1

month_start-suc : (y m : ℕ) → month_start y (m + 1) ≡ month_start y m + month_length y m
unfolding month_start
month_start-suc y m = simp towards_suc refl

year_start-suc :
    (y : ℕ) → 1970 ≤ y → year_start (y + 1 - 1970) ≡ year_start (y - 1970) + year_length y
unfolding year_start
year_start-suc y h =
    let k : ℕ = y - 1970 in
    let e : y + 1 - 1970 ≡ suc (y - 1970) = omega arith in
    let e' : 1970 + (y - 1970) ≡ y = omega arith in
    rw e (ap (λ z. year_start (y - 1970) + year_length z) e')

month_start-last : (y : ℕ) → month_start y 11 + 31 ≡ year_length y
unfolding month_start month_length
month_start-last y = ground arith

le_of_ltb : (a b : ℕ) → ltb a b ≡ false → b ≤ a
le_of_ltb a b h = ground arith

lt_of_ltb : (a b : ℕ) → ltb a b ≡ true → a < b
lt_of_ltb a b h = ground arith

month_length-last : (y m : ℕ) → m ≡ 11 → month_length y m ≡ 31
unfolding month_length
month_length-last y m e = rw e

ordinal-next_date : (d : Date) → IsDate d → ordinal (next_date d) ≡ suc (ordinal d)
unfolding next_date day_number
ordinal-next_date d h = elim (Bool-cases (ltb d.day (month_length d.year d.month))) [
  | inl same_month ↦ rw same_month (omega arith)
  | inr month_over ↦
      let day_last = le_of_ltb d.day (month_length d.year d.month) month_over in
      elim (Bool-cases (ltb d.month 11)) [
        | inl same_year ↦ rw (month_over, same_year) (omega (arith, month_start-suc d.year d.month))
        | inr year_over ↦
            let december : d.month ≡ 11 = omega (arith, le_of_ltb d.month 11 year_over) in
            rw (month_over, year_over)
              (unfold month_start in
                omega (
                  arith,
                  year_start-suc d.year h.epoch,
                  month_start-last d.year,
                  month_length-last d.year d.month december,
                  ap (month_start d.year) december,
                ))
      ]
]

ordinal-date_of : (n : ℕ) → ordinal (date_of n) ≡ n
unfolding date_of day_number year_start month_start
ordinal-date_of zero = refl
ordinal-date_of (suc n) =
    ordinal-next_date (date_of n) (date_of-IsDate n) ∙ ap suc (ordinal-date_of n)

day_after : (a b n : ℕ) → a + b ≡ n + 1 → pos_part (pos a +ℤ pos b +ℤ negsuc 0) ≡ n
unfolding ◌+ℤ◌
day_after a b n h = ground arith

day_before : (a b k n : ℕ) → a + b ≡ n + k + 1 → pos_part (pos a +ℤ sub_ℕ b k +ℤ negsuc 0) ≡ n
unfolding ◌+ℤ◌
day_before a b k n h = ground arith

-- `new Date(d.getFullYear(), d.getMonth(), d.getDate() + k)` is `k` days after `d`, whatever months
-- and years lie between.
pub new_date_after :
    (n k : ℕ)
    → new_date (date_of n).year (date_of n).month (pos ((date_of n).day + k)) ≡ date_of (n + k)
unfolding new_date
new_date_after n k =
    let d = date_of n in
    let days : day_number d.year d.month + (d.day + k) ≡ n + k + 1 =
      omega (arith, ordinal-date_of n, (date_of-IsDate n).day_pos) in
    ap date_of (day_after (day_number d.year d.month) (d.day + k) (n + k) days)

-- `new Date(d.getFullYear(), d.getMonth(), d.getDate() - k)` is `k` days before `d`.
pub new_date_before :
    (n k : ℕ)
    → new_date (date_of (n + k)).year (date_of (n + k)).month (sub_ℕ (date_of (n + k)).day k)
      ≡ date_of n
unfolding new_date
new_date_before n k =
    let d = date_of (n + k) in
    let days : day_number d.year d.month + d.day ≡ n + k + 1 =
      omega (arith, ordinal-date_of (n + k), (date_of-IsDate (n + k)).day_pos) in
    ap date_of (day_before (day_number d.year d.month) d.day k n days)
