-- ===== src/Statistics/Invariant.antt =====
-- Every call keeps what is tracked of a proxy.
use frp.Prelude.{
  ℕ, ◌+◌, ◌*◌, ◌≤◌, ◌≡◌, refl, String, str_eq, str_eq_iff, str_eq_refl, none, some, List, [], ◌∷◌,
  Bool-cases, Option-cases, inl, inr,
}
use frp.Metric.Counter
use frp.Metric.DateCounter
use frp.Metric.DateCounter.{DateCounter, day_seconds}
use frp.Metric.DateCounter.Totals.{Entry}
use frp.Statistics.{
  Clock, ServerStatistics, reserve_days, change_proxy, dec_type, new_client, close_client,
  new_proxy, close_proxy, open_connection, close_connection, add_traffic_in, add_traffic_out,
  fresh_proxy, get_proxy_traffic,
}
use frp.Statistics.Counted.{new-Counted, inc-Counted}
use frp.Statistics.Report.{
  get_server, stats_of, proxy_stats, get_proxies_by_type, get_proxies_by_type_and_name,
}
use frp.Statistics.Run.{
  Action, Event, clock_of, apply, run, cons_received, cons_sent, received_by, sent_by, Keeps,
  newest_day, IsRun, client_opened, client_closed, cleared, server_reported, proxy_opened,
  proxy_closed, proxy_reported, connection_opened, connection_closed, traffic_reported, received,
  sent, proxies_reported,
}
use frp.Statistics.Tracks.{
  Tracks, rotate_both, change_proxy-Tracks, quiet-Tracks, rotate_both-Tracks, same-Tracks,
  dec_type-same, new_proxy-Tracks, Tracks-later,
}

module _ (name type : String) where
  received-Tracks :
      (day : ℕ) (t : Clock) (n : String) (bytes : ℕ) (ins outs : List Entry) (m : ServerStatistics)
      → t.midnight ≡ day * day_seconds
      → Tracks name type day ins outs m
      → Tracks name type day
          (cons_received name day (received n bytes) ins)
          outs
          (add_traffic_in t n bytes m)
  unfolding add_traffic_in
  received-Tracks day t n bytes ins outs m midnight tracks =
      change_proxy-Tracks name type day n
        (λ p. record p { traffic_in = DateCounter.inc t.midnight bytes p.traffic_in }) ins outs
        (cons_received name day (received n bytes) ins) outs
        (record m { total_traffic_in = DateCounter.inc t.midnight bytes m.total_traffic_in })
        (λ same p h. record {
          of_type = h.of_type;
          counted_in =
              let test = (str_eq_iff n name).1 same in
              rw (test, midnight) (inc-Counted ins day bytes p.traffic_in h.counted_in);
          counted_out = h.counted_out;
        })
        (λ test. (rw test refl, refl)) (same-Tracks name type day ins outs m _ refl tracks)

  sent-Tracks :
      (day : ℕ) (t : Clock) (n : String) (bytes : ℕ) (ins outs : List Entry) (m : ServerStatistics)
      → t.midnight ≡ day * day_seconds
      → Tracks name type day ins outs m
      → Tracks name type day ins
          (cons_sent name day (sent n bytes) outs)
          (add_traffic_out t n bytes m)
  unfolding add_traffic_out
  sent-Tracks day t n bytes ins outs m midnight tracks =
      change_proxy-Tracks name type day n
        (λ p. record p { traffic_out = DateCounter.inc t.midnight bytes p.traffic_out }) ins outs
        ins (cons_sent name day (sent n bytes) outs)
        (record m { total_traffic_out = DateCounter.inc t.midnight bytes m.total_traffic_out })
        (λ same p h. record {
          of_type = h.of_type;
          counted_in = h.counted_in;
          counted_out =
              let test = (str_eq_iff n name).1 same in
              rw (test, midnight) (inc-Counted outs day bytes p.traffic_out h.counted_out);
        })
        (λ test. (refl, rw test refl)) (same-Tracks name type day ins outs m _ refl tracks)

  traffic-Tracks :
      (day : ℕ) (t : Clock) (n : String) (ins outs : List Entry) (m : ServerStatistics)
      → t.midnight ≡ day * day_seconds
      → Tracks name type day ins outs m
      → Tracks name type day ins outs (get_proxy_traffic t n m).0
  unfolding get_proxy_traffic rotate_both change_proxy DateCounter.get_last_days_count
  traffic-Tracks day t n ins outs m midnight tracks =
      let moved = rotate_both-Tracks name type day n ins outs m tracks in
      elim (Option-cases (m.proxy_statistics n)) [
        | inl nothing ↦ rw (nothing, get_proxy_traffic) tracks
        | inr (p, found) ↦
            rw (found, get_proxy_traffic, midnight) (rw (found, change_proxy) at moved)
      ]

  stats_of-Tracks :
      (day : ℕ) (t : Clock) (ty n : String) (ins outs : List Entry) (m : ServerStatistics)
      → t.midnight ≡ day * day_seconds
      → Tracks name type day ins outs m
      → Tracks name type day ins outs (stats_of t ty n m).0
  unfolding stats_of proxy_stats rotate_both change_proxy DateCounter.today_count
  stats_of-Tracks day t ty n ins outs m midnight tracks =
      let moved = rotate_both-Tracks name type day n ins outs m tracks in
      elim (Option-cases (m.proxy_statistics n)) [
        | inl nothing ↦ rw (nothing, stats_of) tracks
        | inr (p, found) ↦ elim (Bool-cases (str_eq p.proxy_type ty)) [
          | inl test ↦ rw (found, stats_of, test, midnight) (rw (found, change_proxy) at moved)
          | inr test ↦ rw (found, stats_of, test) tracks
        ]
      ]

  get_proxies_by_type-Tracks :
      (day : ℕ) (t : Clock) (ty : String) (names : List String) (ins outs : List Entry)
      (m : ServerStatistics)
      → t.midnight ≡ day * day_seconds
      → Tracks name type day ins outs m
      → Tracks name type day ins outs (get_proxies_by_type t ty names m).0
  unfolding get_proxies_by_type
  get_proxies_by_type-Tracks day t ty [] ins outs m midnight tracks = tracks
  get_proxies_by_type-Tracks day t ty (n ∷ names) ins outs m midnight tracks =
      get_proxies_by_type-Tracks day t ty names ins outs (stats_of t ty n m).0 midnight
        (stats_of-Tracks day t ty n ins outs m midnight tracks)

  apply-Tracks :
      (e : Event) (a : Action) (ins outs : List Entry) (m : ServerStatistics)
      → Keeps name type e.now a m
      → Tracks name type e.day ins outs m
      → Tracks name type e.day
          (cons_received name e.day a ins)
          (cons_sent name e.day a outs)
          (apply (clock_of e) a m)
  unfolding apply new_client close_client close_proxy open_connection close_connection get_server
      get_proxies_by_type_and_name
  apply-Tracks e client_opened ins outs m k t = same-Tracks name type e.day ins outs m _ refl t
  apply-Tracks e client_closed ins outs m k t = same-Tracks name type e.day ins outs m _ refl t
  apply-Tracks e cleared ins outs m k t = same-Tracks name type e.day ins outs m _ k t
  apply-Tracks e server_reported ins outs m k t = same-Tracks name type e.day ins outs m _ refl t
  apply-Tracks e (proxy_opened n ty) ins outs m k t =
      new_proxy-Tracks name type e.day (clock_of e) n ty ins outs m k t
  apply-Tracks e (proxy_closed n ty) ins outs m k t =
      quiet-Tracks name type e.day n (λ p. record p { last_close_time = some e.now }) ins outs
        (dec_type ty m)
        (λ p h. record {
          of_type = h.of_type;
          counted_in = h.counted_in;
          counted_out = h.counted_out;
        })
        (same-Tracks name type e.day ins outs m _ (dec_type-same name type e.day ty m) t)
  apply-Tracks e (proxy_reported ty n) ins outs m k t =
      stats_of-Tracks e.day (clock_of e) ty n ins outs m refl t
  apply-Tracks e (connection_opened n) ins outs m k t =
      quiet-Tracks name type e.day n (λ p. record p { cur_conns = Counter.inc p.cur_conns 1 }) ins
        outs (record m { cur_conns = Counter.inc m.cur_conns 1 })
        (λ p h. record {
          of_type = h.of_type;
          counted_in = h.counted_in;
          counted_out = h.counted_out;
        })
        (same-Tracks name type e.day ins outs m _ refl t)
  apply-Tracks e (connection_closed n) ins outs m k t =
      quiet-Tracks name type e.day n (λ p. record p { cur_conns = Counter.dec p.cur_conns 1 }) ins
        outs (record m { cur_conns = Counter.dec m.cur_conns 1 })
        (λ p h. record {
          of_type = h.of_type;
          counted_in = h.counted_in;
          counted_out = h.counted_out;
        })
        (same-Tracks name type e.day ins outs m _ refl t)
  apply-Tracks e (traffic_reported n) ins outs m k t =
      traffic-Tracks e.day (clock_of e) n ins outs m refl t
  apply-Tracks e (received n bytes) ins outs m k t =
      received-Tracks e.day (clock_of e) n bytes ins outs m refl t
  apply-Tracks e (sent n bytes) ins outs m k t =
      sent-Tracks e.day (clock_of e) n bytes ins outs m refl t
  apply-Tracks e (proxies_reported ty names) ins outs m k t =
      get_proxies_by_type-Tracks e.day (clock_of e) ty names ins outs m refl t

  pub run-Tracks :
      (first : ℕ) (es : List Event) (m : ServerStatistics)
      → IsRun name type first m es
      → Tracks name type first [] [] m
      → Tracks name type (newest_day first es) (received_by name es) (sent_by name es) (run m es)
  unfolding run
  run-Tracks first [] m ok t = t
  run-Tracks first (e ∷ es) m (later, kept, ok) t =
      let before = run-Tracks first es m ok t in
      apply-Tracks e e.action (received_by name es) (sent_by name es) (run m es) kept (
        Tracks-later name type (newest_day first es) e.day (received_by name es) (sent_by name es)
          (run m es) later before)

  pub open-Tracks :
      (first : ℕ) (c : Clock) (m : ServerStatistics)
      → reserve_days ≤ first + 1
      → c.midnight ≡ first * day_seconds
      → m.proxy_statistics name ≡ none
      → Tracks name type first [] [] (new_proxy c name type m)
  unfolding new_proxy
  open-Tracks first c m room midnight nothing = rw nothing (record {
    proxy = record (fresh_proxy c name type) { last_start_time = some c.now };
    found = rw (str_eq_refl name) refl;
    holds = record {
      of_type = refl;
      counted_in = rw midnight (new-Counted first room);
      counted_out = rw midnight (new-Counted first room);
    };
  })
