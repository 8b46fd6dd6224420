-- ===== src/Dashboard/Bars.antt =====
-- The traffic of a proxy from the calls of the server's statistics to the bars of the page.
use frp.Prelude.{ℕ, ◌+◌, ◌*◌, ◌≤◌, ◌≡◌, ap, String, List, none, history}
use frp.Calendar.{date_of}
use frp.Metric.DateCounter.{day_seconds}
use frp.Statistics.{Clock, ServerStatistics, reserve_days, new_proxy}
use frp.Statistics.Run.{Event, IsRun, received_by, sent_by, newest_day}
use frp.Statistics.Traffic.{after, signed_total, get_proxy_traffic-run}
use frp.Web.Chart.Week.{chart_aligned, day_label}
use frp.Web.Traffic.{chart, on_traffic, draw_traffic}
use frp.Dashboard.{api_proxy_traffic, traffic_reply}

-- Days have 24 hours here. Let a name that has no statistics be opened on the day `first`, at least six days
-- after the start of the calendar. Let calls follow on days that do not go backwards, reports included, none of
-- which opens that name under another type or is a clearing that removes its entry. Then on the day n + 6,
-- not before the last call, the page Traffic.vue shows what api/traffic sends it as a chart, in which each of
-- the last seven days, oldest first, has over its own date the sum of the bytes that came in and of those
-- that went out for that name on that day.
pub on_traffic-run :
    (name type : String) (m : ServerStatistics) (opened : Clock) (first : ℕ) (es : List Event)
    (t : Clock) (n : ℕ)
    → reserve_days ≤ first + 1
    → opened.midnight ≡ first * day_seconds
    → m.proxy_statistics name ≡ none
    → IsRun name type first (new_proxy opened name type m) es
    → newest_day first es ≤ n + 6
    → t.midnight ≡ (n + 6) * day_seconds
    → on_traffic (date_of (n + 6)) (api_proxy_traffic t name (after name type m opened first es)).1
      ≡ chart (record {
        dates = history day_label 7 n;
        traffic_in = history (signed_total (received_by name es)) 7 n;
        traffic_out = history (signed_total (sent_by name es)) 7 n;
      })
unfolding on_traffic draw_traffic api_proxy_traffic traffic_reply
on_traffic-run name type m opened first es t n room start nothing ok present midnight =
    let info =
      get_proxy_traffic-run name type m opened first es t n room start nothing ok present
        midnight in
    rw info (
      ap chart
        (chart_aligned (signed_total (received_by name es)) (signed_total (sent_by name es)) n))
