-- ===== src/Statistics/Balance.antt =====
-- The counts of clients and of connections over any calls.
use frp.Prelude.{ℕ, ◌+◌, ◌-◌, ◌%◌, ◌<◌, ◌≤◌, ◌≡◌, refl, ◌∙◌, some, List, [], ◌∷◌, pos, arith}
use frp.Metric.Word.{mod32, signed}
use frp.Metric.DateCounter
use frp.Metric.Counter.{Counter, new_counter, inc, dec}
use frp.Statistics.{
  Clock, ServerStatistics, new_server_metrics, dec_type, new_client, close_client, new_proxy,
  close_proxy, open_connection, close_connection, add_traffic_in, add_traffic_out,
  clear_useless_info,
}
use frp.Statistics.Report.{count, get_server, get_proxies_by_type_and_name}
use frp.Statistics.Run.{
  Action, client_opened, client_closed, connection_opened, connection_closed, cleared,
  server_reported, proxy_opened, proxy_closed, proxy_reported, traffic_reported, received, sent,
  proxies_reported, Event, clock_of, apply, run,
}
use frp.Statistics.Untouched.{
  change_proxy-SameCounts, dec_type-SameCounts, get_proxy_traffic-SameCounts, stats_of-SameCounts,
  get_proxies_by_type-SameCounts,
}

-- What a call does to a count.
pub data Change : Type 0 where
  up down kept : Change

abbrev pub client_change : Action → Change
client_change client_opened = up
client_change client_closed = down
client_change _ = kept

abbrev pub connection_change : Action → Change
connection_change (connection_opened name) = up
connection_change (connection_closed name) = down
connection_change _ = kept

abbrev pub ups : Change → ℕ
ups up = 1
ups down = 0
ups kept = 0

abbrev pub downs : Change → ℕ
downs up = 0
downs down = 1
downs kept = 0

-- How many calls open, and how many close.
abbrev pub opens : (Action → Change) → List Event → ℕ
opens kind [] = 0
opens kind (e ∷ es) = ups (kind e.action) + opens kind es

abbrev pub closes : (Action → Change) → List Event → ℕ
closes kind [] = 0
closes kind (e ∷ es) = downs (kind e.action) + closes kind es

-- A counter holds a difference, modulo 2^32.
abbrev Balanced : Counter → ℕ → ℕ → Type 0
Balanced c opened closed = (c.count < mod32) × ((c.count + closed) % mod32 ≡ opened % mod32)

abbrev step : Change → Counter → Counter
step up c = inc c 1
step down c = dec c 1
step kept c = c

step-Balanced :
    (d : Change) (c : Counter) (opened closed : ℕ)
    → Balanced c opened closed
    → Balanced (step d c) (ups d + opened) (downs d + closed)
unfolding inc dec
step-Balanced up c opened closed (small, b) = (omega (arith, small, b), omega (arith, small, b))
step-Balanced down c opened closed (small, b) = (omega (arith, small, b), omega (arith, small, b))
step-Balanced kept c opened closed (small, b) = (small, omega (arith, b))

count-Balanced :
    (c : Counter) (opened closed : ℕ)
    → closed ≤ opened
    → opened - closed < 2147483648
    → Balanced c opened closed
    → count c ≡ pos (opened - closed)
unfolding signed
count-Balanced c opened closed more small (bound, b) =
    let value : c.count ≡ opened - closed = omega (arith, more, small, bound, b) in ground arith

-- What an action does to the two counters.
apply-steps :
    (t : Clock) (a : Action) (m : ServerStatistics)
    → ((apply t a m).client_counts ≡ step (client_change a) m.client_counts)
      × ((apply t a m).cur_conns ≡ step (connection_change a) m.cur_conns)
unfolding apply new_client close_client get_server new_proxy close_proxy open_connection
    close_connection add_traffic_in add_traffic_out clear_useless_info get_proxies_by_type_and_name
apply-steps t client_opened m = (refl, refl)
apply-steps t client_closed m = (refl, refl)
apply-steps t cleared m = (refl, refl)
apply-steps t server_reported m = (refl, refl)
apply-steps t (proxy_opened name type) m = (refl, refl)
apply-steps t (proxy_closed name type) m =
    let changed =
      change_proxy-SameCounts name (λ p. record p { last_close_time = some t.now })
        (dec_type type m) in
    let typed = dec_type-SameCounts type m in (changed.0 ∙ typed.0, changed.1 ∙ typed.1)
apply-steps t (proxy_reported type name) m = stats_of-SameCounts t type name m
apply-steps t (connection_opened name) m =
    change_proxy-SameCounts name (λ p. record p { cur_conns = inc p.cur_conns 1 })
      (record m { cur_conns = inc m.cur_conns 1 })
apply-steps t (connection_closed name) m =
    change_proxy-SameCounts name (λ p. record p { cur_conns = dec p.cur_conns 1 })
      (record m { cur_conns = dec m.cur_conns 1 })
apply-steps t (traffic_reported name) m = get_proxy_traffic-SameCounts t name m
apply-steps t (received name bytes) m =
    change_proxy-SameCounts name
      (λ p. record p { traffic_in = DateCounter.inc t.midnight bytes p.traffic_in })
      (record m { total_traffic_in = DateCounter.inc t.midnight bytes m.total_traffic_in })
apply-steps t (sent name bytes) m =
    change_proxy-SameCounts name
      (λ p. record p { traffic_out = DateCounter.inc t.midnight bytes p.traffic_out })
      (record m { total_traffic_out = DateCounter.inc t.midnight bytes m.total_traffic_out })
apply-steps t (proxies_reported type names) m = get_proxies_by_type-SameCounts t type names m

run-Balanced :
    (t : Clock) (es : List Event)
    → Balanced
        (run (new_server_metrics t) es).client_counts
        (opens client_change es)
        (closes client_change es)
      × Balanced
          (run (new_server_metrics t) es).cur_conns
          (opens connection_change es)
          (closes connection_change es)
unfolding run new_server_metrics new_counter
run-Balanced t [] = ((omega arith, refl), (omega arith, refl))
run-Balanced t (e ∷ es) =
    let m = run (new_server_metrics t) es in
    let (clients, conns) = run-Balanced t es in
    let (new_clients, new_conns) = apply-steps (clock_of e) e.action m in
    (
      rw new_clients (
          step-Balanced (client_change e.action) m.client_counts (opens client_change es)
            (closes client_change es) clients),
      rw new_conns (
          step-Balanced (connection_change e.action) m.cur_conns (opens connection_change es)
            (closes connection_change es) conns),
    )

-- From the start of frps on, after any calls, if no more clients and connections were closed than opened and
-- fewer than 2^31 are open, GetServer reports how many clients and connections are open.
pub get_server-run :
    (t now : Clock) (es : List Event)
    → closes client_change es ≤ opens client_change es
    → opens client_change es - closes client_change es < 2147483648
    → closes connection_change es ≤ opens connection_change es
    → opens connection_change es - closes connection_change es < 2147483648
    → ((get_server now (run (new_server_metrics t) es)).1.client_counts
        ≡ pos (opens client_change es - closes client_change es))
      × ((get_server now (run (new_server_metrics t) es)).1.cur_conns
          ≡ pos (opens connection_change es - closes connection_change es))
unfolding get_server
get_server-run t now es more few more_conns few_conns =
    let m = run (new_server_metrics t) es in
    let (clients, conns) = run-Balanced t es in
    (
      count-Balanced m.client_counts (opens client_change es) (closes client_change es) more few
          clients,
      count-Balanced m.cur_conns (opens connection_change es) (closes connection_change es)
          more_conns few_conns conns,
    )
