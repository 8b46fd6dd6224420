-- ===== src/Statistics/Open.antt =====
-- The entry of a proxy that is open, and what changes it.
use frp.Prelude.{
  ltb, ℕ, ◌≤◌, ◌≡◌, refl, sym, ◌∙◌, String, str_eq, str_eq_iff, str_eq_refl, false, some, List, [],
  ◌∷◌, Bool-cases, Option-cases, inl, inr, arith,
}
use frp.Metric.DateCounter
use frp.Statistics.{
  Clock, ProxyStatistics, ServerStatistics, change_proxy, new_proxy, get_proxy_traffic,
  proxy_or_fresh, clear_useless_info, is_useless,
}
use frp.Statistics.Report.{stats_of, proxy_stats, get_proxies_by_type}
use frp.Statistics.Tracks.{rotate_both, change_proxy_self, change_proxy_other}
use frp.Statistics.Clearing.{ClosedBy, proxy_or_fresh-ClosedBy}

-- The entry of the name, which was started by `latest` and closed at no time after its start.
pub record IsOpen (name : String) (latest : ℕ) (m : ServerStatistics) : Type 0 where
  pub proxy : ProxyStatistics
  pub found : m.proxy_statistics name ≡ some proxy
  pub started : ℕ
  pub since : proxy.last_start_time ≡ some started
  pub not_later : started ≤ latest
  pub closed_by : (closed : ℕ) → proxy.last_close_time ≡ some closed → closed ≤ started

open_useful :
    (later started : ℕ) (p : ProxyStatistics)
    → p.last_start_time ≡ some started
    → ((closed : ℕ) → p.last_close_time ≡ some closed → closed ≤ started)
    → is_useless later p ≡ false
unfolding is_useless
open_useful later started p since closed_by = elim (Option-cases p.last_close_time) [
  | inl nothing ↦ rw (nothing, is_useless) refl
  | inr (closed, found) ↦
      let h = closed_by closed found in
      let test : ltb started closed ≡ false = ground arith in
      rw (found, is_useless, since, test) refl
]

abbrev SameTimes : (ProxyStatistics → ProxyStatistics) → Type 0
SameTimes change =
    (p : ProxyStatistics)
    → ((change p).last_start_time ≡ p.last_start_time)
      × ((change p).last_close_time ≡ p.last_close_time)

module _ (name : String) (latest : ℕ) where
  pub same-IsOpen :
      (m m' : ServerStatistics)
      → m'.proxy_statistics name ≡ m.proxy_statistics name
      → IsOpen name latest m
      → IsOpen name latest m'
  same-IsOpen m m' same o = record {
    proxy = o.proxy;
    found = same ∙ o.found;
    started = o.started;
    since = o.since;
    not_later = o.not_later;
    closed_by = o.closed_by;
  }

  pub change_proxy-IsOpen :
      (n : String) (change : ProxyStatistics → ProxyStatistics) (m : ServerStatistics)
      → SameTimes change
      → IsOpen name latest m
      → IsOpen name latest (change_proxy n change m)
  change_proxy-IsOpen n change m times o = elim (Bool-cases (str_eq n name)) [
    | inl test ↦
        let (starts, closes) = times o.proxy in
        record {
          proxy = change o.proxy;
          found = change_proxy_self name "" 0 n change m o.proxy test o.found;
          started = o.started;
          since = starts ∙ o.since;
          not_later = o.not_later;
          closed_by = λ closed e. o.closed_by closed (sym closes ∙ e);
        }
    | inr test ↦
        same-IsOpen m (change_proxy n change m) (change_proxy_other name "" 0 n change m test) o
  ]

  pub traffic-IsOpen :
      (t : Clock) (n : String) (m : ServerStatistics)
      → IsOpen name latest m
      → IsOpen name latest (get_proxy_traffic t n m).0
  unfolding get_proxy_traffic rotate_both change_proxy DateCounter.get_last_days_count
  traffic-IsOpen t n m o =
      let moved = change_proxy-IsOpen n (rotate_both t.midnight) m (λ p. (refl, refl)) o in
      elim (Option-cases (m.proxy_statistics n)) [
        | inl nothing ↦ rw (nothing, get_proxy_traffic) o
        | inr (p, found) ↦ rw (found, get_proxy_traffic) (rw (found, change_proxy) at moved)
      ]

  pub stats_of-IsOpen :
      (t : Clock) (ty n : String) (m : ServerStatistics)
      → IsOpen name latest m
      → IsOpen name latest (stats_of t ty n m).0
  unfolding stats_of proxy_stats rotate_both change_proxy DateCounter.today_count
  stats_of-IsOpen t ty n m o =
      let moved = change_proxy-IsOpen n (rotate_both t.midnight) m (λ p. (refl, refl)) o in
      elim (Option-cases (m.proxy_statistics n)) [
        | inl nothing ↦ rw (nothing, stats_of) o
        | inr (p, found) ↦ elim (Bool-cases (str_eq p.proxy_type ty)) [
          | inl test ↦ rw (found, stats_of, test) (rw (found, change_proxy) at moved)
          | inr test ↦ rw (found, stats_of, test) o
        ]
      ]

  pub get_proxies_by_type-IsOpen :
      (t : Clock) (ty : String) (names : List String) (m : ServerStatistics)
      → IsOpen name latest m
      → IsOpen name latest (get_proxies_by_type t ty names m).0
  unfolding get_proxies_by_type
  get_proxies_by_type-IsOpen t ty [] m o = o
  get_proxies_by_type-IsOpen t ty (n ∷ names) m o =
      get_proxies_by_type-IsOpen t ty names (stats_of t ty n m).0 (stats_of-IsOpen t ty n m o)

  pub clear-same :
      (later : ℕ) (m : ServerStatistics)
      → IsOpen name latest m
      → (clear_useless_info later m).proxy_statistics name ≡ m.proxy_statistics name
  unfolding clear_useless_info
  clear-same later m o = rw (o.found, open_useful later o.started o.proxy o.since o.closed_by) refl

  -- A name that is opened, perhaps anew.
  pub new_proxy-IsOpen :
      (t : Clock) (type : String) (m : ServerStatistics)
      → t.now ≤ latest
      → ClosedBy t.now (m.proxy_statistics name)
      → IsOpen name latest (new_proxy t name type m)
  unfolding new_proxy
  new_proxy-IsOpen t type m early closed_by =
      let p = proxy_or_fresh t name type (m.proxy_statistics name) in
      record {
        proxy = record p { last_start_time = some t.now };
        found = rw (str_eq_refl name) refl;
        started = t.now;
        since = refl;
        not_later = early;
        closed_by = proxy_or_fresh-ClosedBy t name type (m.proxy_statistics name) closed_by;
      }

  pub opened-IsOpen :
      (t : Clock) (n type : String) (m : ServerStatistics)
      → t.now ≡ latest
      → IsOpen name latest m
      → IsOpen name latest (new_proxy t n type m)
  unfolding new_proxy
  opened-IsOpen t n type m now o = elim (Bool-cases (str_eq n name)) [
    | inl test ↦
        let e : n ≡ name = (str_eq_iff n name).0 test in
        let early : ClosedBy t.now (m.proxy_statistics name) =
          rw o.found (λ closed found. omega (arith, now, o.not_later, o.closed_by closed found)) in
        rw e (new_proxy-IsOpen t type m (omega (arith, now)) early)
    | inr test ↦ same-IsOpen m (new_proxy t n type m) (rw test refl) o
  ]

  pub later-IsOpen :
      (earlier : ℕ) (m : ServerStatistics)
      → earlier ≤ latest
      → IsOpen name earlier m
      → IsOpen name latest m
  later-IsOpen earlier m h o = record {
    proxy = o.proxy;
    found = o.found;
    started = o.started;
    since = o.since;
    not_later = omega (arith, h, o.not_later);
    closed_by = o.closed_by;
  }
