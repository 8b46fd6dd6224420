-- ===== src/Statistics/Kept.antt =====
-- A proxy that is open keeps its entry over any calls.
use frp.Prelude.{
  ℕ, ◌≤◌, ◌≡◌, ◌≢◌, refl, ap, ◌∙◌, String, str_eq, str_eq_iff, true, some, is_some, List, [], ◌∷◌,
  Bool-cases, inl, inr, arith,
}
use frp.Metric.Counter
use frp.Metric.DateCounter
use frp.Statistics.{
  Clock, ServerStatistics, dec_type, new_client, close_client, new_proxy, close_proxy,
  open_connection, close_connection, add_traffic_in, add_traffic_out, clear_useless_info,
}
use frp.Statistics.Report.{get_server, get_proxies_by_type_and_name}
use frp.Statistics.Run.{
  Action, Event, clock_of, apply, run, client_opened, client_closed, cleared, server_reported,
  proxy_opened, proxy_closed, proxy_reported, connection_opened, connection_closed,
  traffic_reported, received, sent, proxies_reported,
}
use frp.Statistics.Tracks.{change_proxy_other, dec_type-same}
use frp.Statistics.Clearing.{ClosedBy}
use frp.Statistics.Open.{
  IsOpen, same-IsOpen, change_proxy-IsOpen, traffic-IsOpen, stats_of-IsOpen,
  get_proxies_by_type-IsOpen, clear-same, new_proxy-IsOpen, opened-IsOpen, later-IsOpen,
}

-- A call that is no CloseProxy of the name.
abbrev pub LeavesOpen : String → Action → Type 0
LeavesOpen name (proxy_closed n type) = n ≢ name
LeavesOpen name _ = Unit

-- The time of the newest call, `first` if there is none.
abbrev pub newest_now : ℕ → List Event → ℕ
newest_now first [] = first
newest_now first (e ∷ es) = e.now

-- The times do not go backwards from `first` on, and no call closes the name.
abbrev pub StaysOpen : String → ℕ → List Event → Type 0
StaysOpen name first [] = Unit
StaysOpen name first (e ∷ es) =
    (newest_now first es ≤ e.now) × LeavesOpen name e.action × StaysOpen name first es

module _ (name : String) where
  apply-IsOpen :
      (e : Event) (a : Action) (m : ServerStatistics)
      → LeavesOpen name a
      → IsOpen name e.now m
      → IsOpen name e.now (apply (clock_of e) a m)
  unfolding apply new_client close_client close_proxy open_connection close_connection get_server
      get_proxies_by_type_and_name add_traffic_in add_traffic_out
  apply-IsOpen e client_opened m k o = same-IsOpen name e.now m _ refl o
  apply-IsOpen e client_closed m k o = same-IsOpen name e.now m _ refl o
  apply-IsOpen e cleared m k o = same-IsOpen name e.now m _ (clear-same name e.now e.now m o) o
  apply-IsOpen e server_reported m k o = same-IsOpen name e.now m _ refl o
  apply-IsOpen e (proxy_opened n type) m k o = opened-IsOpen name e.now (clock_of e) n type m refl o
  apply-IsOpen e (proxy_closed n type) m k o = elim (Bool-cases (str_eq n name)) [
    | inl test ↦ absurd (k ((str_eq_iff n name).0 test))
    | inr test ↦
        same-IsOpen name e.now m _
          (change_proxy_other name "" 0 n (λ p. record p { last_close_time = some e.now })
              (dec_type type m) test
            ∙ dec_type-same name "" 0 type m)
          o
  ]
  apply-IsOpen e (proxy_reported type n) m k o = stats_of-IsOpen name e.now (clock_of e) type n m o
  apply-IsOpen e (connection_opened n) m k o =
      change_proxy-IsOpen name e.now n (λ p. record p { cur_conns = Counter.inc p.cur_conns 1 })
        (record m { cur_conns = Counter.inc m.cur_conns 1 }) (λ p. (refl, refl))
        (same-IsOpen name e.now m _ refl o)
  apply-IsOpen e (connection_closed n) m k o =
      change_proxy-IsOpen name e.now n (λ p. record p { cur_conns = Counter.dec p.cur_conns 1 })
        (record m { cur_conns = Counter.dec m.cur_conns 1 }) (λ p. (refl, refl))
        (same-IsOpen name e.now m _ refl o)
  apply-IsOpen e (traffic_reported n) m k o = traffic-IsOpen name e.now (clock_of e) n m o
  apply-IsOpen e (received n bytes) m k o =
      let t = clock_of e in
      change_proxy-IsOpen name e.now n
        (λ p. record p { traffic_in = DateCounter.inc t.midnight bytes p.traffic_in })
        (record m { total_traffic_in = DateCounter.inc t.midnight bytes m.total_traffic_in })
        (λ p. (refl, refl)) (same-IsOpen name e.now m _ refl o)
  apply-IsOpen e (sent n bytes) m k o =
      let t = clock_of e in
      change_proxy-IsOpen name e.now n
        (λ p. record p { traffic_out = DateCounter.inc t.midnight bytes p.traffic_out })
        (record m { total_traffic_out = DateCounter.inc t.midnight bytes m.total_traffic_out })
        (λ p. (refl, refl)) (same-IsOpen name e.now m _ refl o)
  apply-IsOpen e (proxies_reported type names) m k o =
      get_proxies_by_type-IsOpen name e.now (clock_of e) type names m o

  run-IsOpen :
      (first : ℕ) (es : List Event) (m : ServerStatistics)
      → StaysOpen name first es
      → IsOpen name first m
      → IsOpen name (newest_now first es) (run m es)
  unfolding run
  run-IsOpen first [] m stays o = o
  run-IsOpen first (e ∷ es) m (later, leaves, stays) o = apply-IsOpen e e.action (run m es) leaves (
      later-IsOpen name e.now (newest_now first es) (run m es) later
        (run-IsOpen first es m stays o))

  -- Let a name be opened at a time not before any at which its entry was closed, and let any calls follow at
  -- times that do not go backwards, none of which closes the name: clearings, reports, traffic, and openings
  -- of the name too. Then the name has an entry, and a clearing at any time leaves that as it is.
  pub clear_useless_info-run :
      (t : Clock) (type : String) (m : ServerStatistics) (es : List Event) (later : ℕ)
      → ClosedBy t.now (m.proxy_statistics name)
      → StaysOpen name t.now es
      → (is_some ((run (new_proxy t name type m) es).proxy_statistics name) ≡ true)
        × ((clear_useless_info later (run (new_proxy t name type m) es)).proxy_statistics name
            ≡ (run (new_proxy t name type m) es).proxy_statistics name)
  clear_useless_info-run t type m es later closed_by stays =
      let opened = new_proxy-IsOpen name t.now t type m (omega arith) closed_by in
      let o = run-IsOpen t.now es (new_proxy t name type m) stays opened in
      (ap is_some o.found, clear-same name (newest_now t.now es) later _ o)
