-- ===== src/Web/Chart/Week.antt =====
-- The bar chart of a proxy's last seven days.
use frp.Prelude.{
  ℕ, zero, suc, ◌+◌, List, [], ◌∷◌, ◌++◌, ◌≡◌, sym, ◌∙◌, append-nil, append_assoc, String, ℤ,
  history, recent, reverse-recent,
}
use frp.Calendar.{date_of}
use frp.Calendar.Laws.{new_date_after, new_date_before}
use frp.Web.Chart.{date_label, push_dates, week_dates, proxy_traffic_chart}

-- The label of the day `n` days after 1 January 1970.
abbrev pub day_label : ℕ → String
day_label n = date_label (date_of n)

push_dates-history :
    (k n : ℕ) (dates : List String)
    → push_dates k (date_of n) dates ≡ dates ++ history day_label k n
unfolding push_dates
push_dates-history zero n dates = sym (append-nil dates)
push_dates-history (suc k) n dates = rw (new_date_after n 1) (
    push_dates-history k (n + 1) (dates ++ day_label n ∷ [])
    ∙ append_assoc dates (day_label n ∷ []) (history day_label k (n + 1)))

-- The seven labels are those of the seven days that end today, oldest first, over any end of a month,
-- of February and of a year.
pub week_dates-history : (n : ℕ) → week_dates (date_of (n + 6)) ≡ history day_label 7 n
unfolding week_dates
week_dates-history n = rw (new_date_before n 6) (push_dates-history 7 n [])

-- On day n + 6, given the traffic of days n + 6 down to n as api/traffic sends it, the chart puts each
-- day's bars over that day's label.
pub chart_aligned :
    (traffic_in traffic_out : ℕ → ℤ) (n : ℕ)
    → proxy_traffic_chart (date_of (n + 6)) (recent traffic_in 7 n) (recent traffic_out 7 n)
      ≡ record {
        dates = history day_label 7 n;
        traffic_in = history traffic_in 7 n;
        traffic_out = history traffic_out 7 n;
      }
unfolding proxy_traffic_chart
chart_aligned traffic_in traffic_out n = λ i. record {
  dates = week_dates-history n i;
  traffic_in = reverse-recent traffic_in 7 n i;
  traffic_out = reverse-recent traffic_out 7 n i;
}
