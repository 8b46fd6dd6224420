-- ===== src/Tests/Reports.antt =====
-- The statistics of the server, from calls to the dashboard.
use frp.Prelude.{
  str_eq_iff, false, is_some, true, ◌-◌, ℕ, ◌+◌, ◌*◌, ◌≡◌, refl, List, [], ◌∷◌, none, some, ltb,
  if◌then◌else◌, pos, recent, history, arith,
}
use frp.Calendar.{date_of}
use frp.Metric.DateCounter.{day_seconds}
use frp.Metric.Word.{signed}
use frp.Statistics.{
  Clock, ProxyStatistics, ServerStatistics, fresh_proxy, new_server_metrics, new_proxy, close_proxy,
  clear_useless_info, get_proxy_traffic,
}
use frp.Statistics.Report.{ProxyStats, get_proxies_by_type_and_name}
use frp.Statistics.Run.{
  Event, IsRun, run, received_by, sent_by, cleared, connection_opened, traffic_reported,
  proxies_reported, proxy_closed, proxy_opened, received, sent,
}
use frp.Statistics.Traffic.{
  after, signed_total, get_proxy_traffic-run, get_proxies_by_type_and_name-run,
}
use frp.Statistics.Kept.{clear_useless_info-run}
use frp.Statistics.Clearing.{clear_useless_info-new_proxy, clear_useless_info-close_proxy}
use frp.Dashboard.{api_proxy_traffic}
use frp.Dashboard.Bars.{on_traffic-run}
use frp.Web.Chart.Week.{day_label}
use frp.Web.Traffic.{chart, on_traffic}

abbrev clock : ℕ → Clock
clock day = record { now = day * day_seconds + 3600; midnight = day * day_seconds }

abbrev start : ServerStatistics
start = new_server_metrics (clock 20)

-- Two proxies, the newest call first.
abbrev calls : List Event
calls =
    record { day = 22; now = 1904402; action = sent "web" 4 }
    ∷ record { day = 22; now = 1904401; action = traffic_reported "web" }
    ∷ record { day = 21; now = 1818001; action = proxies_reported "tcp" ("db" ∷ "web" ∷ []) }
    ∷ record { day = 21; now = 1818000; action = proxy_closed "db" "tcp" }
    ∷ record { day = 20; now = 1731605; action = received "web" 7 }
    ∷ record { day = 20; now = 1731604; action = received "db" 9 }
    ∷ record { day = 20; now = 1731603; action = received "web" 5 }
    ∷ record { day = 20; now = 1731602; action = connection_opened "web" }
    ∷ record { day = 20; now = 1731601; action = proxy_opened "db" "tcp" }
    ∷ record { day = 20; now = 1731600; action = cleared }
    ∷ []

calls-IsRun : IsRun "web" "tcp" 20 (new_proxy (clock 20) "web" "tcp" start) calls
unfolding new_server_metrics run
calls-IsRun = (
  omega arith,
  tt,
  (
    omega arith,
    tt,
    (
      omega arith,
      tt,
      (
        omega arith,
        tt,
        (
          omega arith,
          tt,
          (
            omega arith,
            tt,
            (
              omega arith,
              tt,
              (
                omega arith,
                tt,
                (
                  omega arith,
                  (λ e. refl),
                  (
                    omega arith,
                    clear_useless_info-new_proxy (clock 20) "web" "tcp" 1731600 start tt,
                    tt,
                  ),
                ),
              ),
            ),
          ),
        ),
      ),
    ),
  ),
)

get_proxy_traffic-run_example :
    (get_proxy_traffic (clock 23) "web" (after "web" "tcp" start (clock 20) 20 calls)).1
    ≡ some (record {
      name = "web";
      traffic_in = recent (signed_total (received_by "web" calls)) 7 17;
      traffic_out = recent (signed_total (sent_by "web" calls)) 7 17;
    })
unfolding new_server_metrics
get_proxy_traffic-run_example =
    get_proxy_traffic-run "web" "tcp" start (clock 20) 20 calls (clock 23) 17 (omega arith) refl
      refl calls-IsRun (omega arith) refl

totals_of_web :
    recent (signed_total (received_by "web" calls)) 4 20 ≡ pos 0 ∷ pos 0 ∷ pos 0 ∷ pos 12 ∷ []
unfolding signed
totals_of_web = refl

get_proxies_by_type_and_name-run_example :
    (s : ProxyStats) × ((get_proxies_by_type_and_name
        (clock 22)
        "tcp"
        "web"
        (after "web" "tcp" start (clock 20) 20 calls)).1
      ≡ some s)
    × (s.today_traffic_in ≡ signed_total (received_by "web" calls) 22)
    × (s.today_traffic_out ≡ signed_total (sent_by "web" calls) 22)
unfolding new_server_metrics
get_proxies_by_type_and_name-run_example =
    get_proxies_by_type_and_name-run "web" "tcp" start (clock 20) 20 calls (clock 22) 22
      (omega arith) refl refl calls-IsRun (omega arith) refl

on_traffic-run_example :
    on_traffic
      (date_of (17 + 6))
      (api_proxy_traffic (clock 23) "web" (after "web" "tcp" start (clock 20) 20 calls)).1
    ≡ chart (record {
      dates = history day_label 7 17;
      traffic_in = history (signed_total (received_by "web" calls)) 7 17;
      traffic_out = history (signed_total (sent_by "web" calls)) 7 17;
    })
unfolding new_server_metrics
on_traffic-run_example =
    on_traffic-run "web" "tcp" start (clock 20) 20 calls (clock 23) 17 (omega arith) refl refl
      calls-IsRun (omega arith) refl

clear_useless_info-new_proxy_example :
    (clear_useless_info 9000000 (new_proxy (clock 20) "web" "tcp" start)).proxy_statistics "web"
    ≡ (new_proxy (clock 20) "web" "tcp" start).proxy_statistics "web"
unfolding new_server_metrics
clear_useless_info-new_proxy_example =
    clear_useless_info-new_proxy (clock 20) "web" "tcp" 9000000 start tt

-- The name was closed, is opened again ten days later and has a connection; a clearing comes in between.
abbrev closed_before : ServerStatistics
closed_before = close_proxy (clock 21) "web" "tcp" (new_proxy (clock 20) "web" "tcp" start)

abbrev reopened_calls : List Event
reopened_calls =
    record { day = 40; now = 3460000; action = cleared }
    ∷ record { day = 32; now = 2768402; action = proxy_closed "db" "tcp" }
    ∷ record { day = 31; now = 2682001; action = connection_opened "web" }
    ∷ []

clear_useless_info-run_example :
    (is_some (
        (run (new_proxy (clock 31) "web" "tcp" closed_before) reopened_calls).proxy_statistics
          "web")
      ≡ true)
    × ((clear_useless_info 9000000
            (run (new_proxy (clock 31) "web" "tcp" closed_before) reopened_calls)).proxy_statistics
          "web"
        ≡ (run (new_proxy (clock 31) "web" "tcp" closed_before) reopened_calls).proxy_statistics
            "web")
unfolding close_proxy new_proxy new_server_metrics
clear_useless_info-run_example =
    clear_useless_info-run "web" (clock 31) "tcp" closed_before reopened_calls 9000000
      (λ closed e. let same : 1818000 ≡ closed = cc in omega (arith, same))
      (
        omega arith,
        tt,
        (
          omega arith,
          (λ e. let both : false ≡ true = (str_eq_iff "db" "web").1 e in cc),
          (omega arith, tt, tt),
        ),
      )

abbrev web : ProxyStatistics
web = record (fresh_proxy (clock 20) "web" "tcp") { last_start_time = some 1731600 }

clear_useless_info-close_proxy_example :
    (clear_useless_info 2422801 (
        close_proxy
          (clock 21)
          "web"
          "tcp"
          (new_proxy (clock 20) "web" "tcp" start))).proxy_statistics
      "web"
    ≡ (if ltb (7 * 24 * 3600) (2422801 - 1818000)
        then none
        else (close_proxy
              (clock 21)
              "web"
              "tcp"
              (new_proxy (clock 20) "web" "tcp" start)).proxy_statistics
            "web")
unfolding new_proxy new_server_metrics
clear_useless_info-close_proxy_example =
    clear_useless_info-close_proxy (clock 21) "web" "tcp" 2422801
      (new_proxy (clock 20) "web" "tcp" start) web 1731600 refl refl (omega arith)

removed_after_a_week : ltb (7 * 24 * 3600) (2422801 - 1818000) ≡ true
removed_after_a_week = refl
