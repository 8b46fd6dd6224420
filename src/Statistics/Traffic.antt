-- ===== src/Statistics/Traffic.antt =====
-- What is reported of a proxy after any calls.
use frp.Prelude.{
  ℕ, zero, suc, ◌+◌, ◌*◌, ◌≤◌, ◌≡◌, refl, ap, true, String, str_eq, str_eq_iff, List, ◌∷◌, map,
  none, some, ℤ, recent,
}
use frp.Metric.Word.{mod64, signed}
use frp.Metric.DateCounter
use frp.Metric.DateCounter.{DateCounter, day_seconds}
use frp.Metric.DateCounter.Totals.{Entry, total_on}
use frp.Statistics.{Clock, ServerStatistics, reserve_days, new_proxy, get_proxy_traffic}
use frp.Statistics.Report.{ProxyStats, stats_of, proxy_stats, get_proxies_by_type_and_name}
use frp.Statistics.Counted.{Counted, get_last_days_count-Counted, today_count-Counted}
use frp.Statistics.Run.{Event, IsRun, run, received_by, sent_by, newest_day}
use frp.Statistics.Tracks.{Tracks, Tracks-later}
use frp.Statistics.Invariant.{run-Tracks, open-Tracks}

map-recent :
    {A B : Type 0} (f : A → B) (g : ℕ → A) (k n : ℕ)
    → map f (recent g k n) ≡ recent (λ d. f (g d)) k n
map-recent f g zero n = refl
map-recent f g (suc k) n = ap (λ l. f (g (n + k)) ∷ l) (map-recent f g k n)

-- The sum of a day's entries, read as an int64.
abbrev pub signed_total : List Entry → ℕ → ℤ
signed_total entries d = signed mod64 (total_on entries d)

counts-recent :
    (n : ℕ) (entries : List Entry) (c : DateCounter)
    → Counted entries (n + 6) c
    → map (signed mod64) (DateCounter.get_last_days_count ((n + 6) * day_seconds) 7 c).1
      ≡ recent (signed_total entries) 7 n
counts-recent n entries c k =
    rw (get_last_days_count-Counted entries n c k)
      (map-recent (signed mod64) (total_on entries) 7 n)

module _ (name type : String) (m : ServerStatistics) (opened : Clock) (first : ℕ)
    (es : List Event) where
  -- The statistics after the proxy is opened and the events.
  abbrev pub after : ServerStatistics
  after = run (new_proxy opened name type m) es

  after-Tracks :
      (day : ℕ)
      → reserve_days ≤ first + 1
      → opened.midnight ≡ first * day_seconds
      → m.proxy_statistics name ≡ none
      → IsRun name type first (new_proxy opened name type m) es
      → newest_day first es ≤ day
      → Tracks name type day (received_by name es) (sent_by name es) after
  after-Tracks day room start nothing ok present =
      let opened_state = new_proxy opened name type m in
      Tracks-later name type (newest_day first es) day (received_by name es) (sent_by name es) after
        present
        (run-Tracks name type first es opened_state ok
          (open-Tracks name type first opened m room start nothing))

  -- Let a proxy that has no statistics be opened on the day `first`, at least six days after the start of
  -- the calendar, and let any calls follow on days that do not go backwards, reports included, other than
  -- an opening of that name under another type or a clearing that removes it. Then on the day n + 6, not
  -- before the last call, GetProxyTraffic reports for each of the last seven days, newest first, the sum
  -- of the bytes that came in and of those that went out for that name on that day, as int64s.
  pub get_proxy_traffic-run :
      (t : Clock) (n : ℕ)
      → reserve_days ≤ first + 1
      → opened.midnight ≡ first * day_seconds
      → m.proxy_statistics name ≡ none
      → IsRun name type first (new_proxy opened name type m) es
      → newest_day first es ≤ n + 6
      → t.midnight ≡ (n + 6) * day_seconds
      → (get_proxy_traffic t name after).1
        ≡ some (record {
          name = name;
          traffic_in = recent (signed_total (received_by name es)) 7 n;
          traffic_out = recent (signed_total (sent_by name es)) 7 n;
        })
  unfolding get_proxy_traffic
  get_proxy_traffic-run t n room start nothing ok present midnight =
      let tracks = after-Tracks (n + 6) room start nothing ok present in
      let p = tracks.proxy in
      let ins_eq = counts-recent n (received_by name es) p.traffic_in tracks.holds.counted_in in
      let outs_eq = counts-recent n (sent_by name es) p.traffic_out tracks.holds.counted_out in
      rw (tracks.found, get_proxy_traffic, midnight)
        (λ i. some (record { name = name; traffic_in = ins_eq i; traffic_out = outs_eq i }))

  -- Let a proxy that has no statistics be opened on the day `first`, at least six days after the start of
  -- the calendar, and let any calls follow on days that do not go backwards, reports included, other than
  -- an opening of that name under another type or a clearing that removes it. Then on any day not before
  -- the last call, GetProxiesByTypeAndName finds the proxy, and its traffic of the day is the sum of the
  -- bytes that came in and of those that went out for that name on that day, as int64s.
  pub get_proxies_by_type_and_name-run :
      (t : Clock) (day : ℕ)
      → reserve_days ≤ first + 1
      → opened.midnight ≡ first * day_seconds
      → m.proxy_statistics name ≡ none
      → IsRun name type first (new_proxy opened name type m) es
      → newest_day first es ≤ day
      → t.midnight ≡ day * day_seconds
      → (s : ProxyStats) × ((get_proxies_by_type_and_name t type name after).1 ≡ some s)
        × (s.today_traffic_in ≡ signed_total (received_by name es) day)
        × (s.today_traffic_out ≡ signed_total (sent_by name es) day)
  unfolding get_proxies_by_type_and_name stats_of proxy_stats DateCounter.today_count
  get_proxies_by_type_and_name-run t day room start nothing ok present midnight =
      let tracks = after-Tracks day room start nothing ok present in
      let p = tracks.proxy in
      let typed : str_eq p.proxy_type type ≡ true =
        (str_eq_iff p.proxy_type type).1 tracks.holds.of_type in
      let ins =
        today_count-Counted (received_by name es) day p.traffic_in tracks.holds.counted_in in
      let outs = today_count-Counted (sent_by name es) day p.traffic_out tracks.holds.counted_out in
      (
        (proxy_stats t name p).1,
        rw (tracks.found, stats_of, typed) refl,
        rw midnight (ap (signed mod64) ins),
        rw midnight (ap (signed mod64) outs),
      )
