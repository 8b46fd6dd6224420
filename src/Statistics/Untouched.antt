-- ===== src/Statistics/Untouched.antt =====
-- What leaves the counts of clients and connections as they are.
use frp.Prelude.{◌≡◌, refl, ◌∙◌, String, str_eq, Bool-cases, Option-cases, inl, inr, List, [], ◌∷◌}
use frp.Statistics.{
  Clock, ServerStatistics, ProxyStatistics, change_proxy, dec_type, get_proxy_traffic,
}
use frp.Statistics.Report.{stats_of, get_proxies_by_type}

-- The number of clients, and of connections, that a state counts.
abbrev pub SameCounts : ServerStatistics → ServerStatistics → Type 0
SameCounts m n = (m.client_counts ≡ n.client_counts) × (m.cur_conns ≡ n.cur_conns)

pub change_proxy-SameCounts :
    (name : String) (change : ProxyStatistics → ProxyStatistics) (m : ServerStatistics)
    → SameCounts (change_proxy name change m) m
unfolding change_proxy
change_proxy-SameCounts name change m = elim (Option-cases (m.proxy_statistics name)) [
  | inl missing ↦ (rw (missing, change_proxy) refl, rw (missing, change_proxy) refl)
  | inr (p, found) ↦ (rw (found, change_proxy) refl, rw (found, change_proxy) refl)
]

pub dec_type-SameCounts : (type : String) (m : ServerStatistics) → SameCounts (dec_type type m) m
dec_type-SameCounts type m = elim (Option-cases (m.proxy_type_counts type)) [
  | inl missing ↦ (rw (missing, dec_type) refl, rw (missing, dec_type) refl)
  | inr (c, found) ↦ (rw (found, dec_type) refl, rw (found, dec_type) refl)
]

pub get_proxy_traffic-SameCounts :
    (t : Clock) (name : String) (m : ServerStatistics) → SameCounts (get_proxy_traffic t name m).0 m
unfolding get_proxy_traffic
get_proxy_traffic-SameCounts t name m = elim (Option-cases (m.proxy_statistics name)) [
  | inl missing ↦ (rw (missing, get_proxy_traffic) refl, rw (missing, get_proxy_traffic) refl)
  | inr (p, found) ↦ (rw (found, get_proxy_traffic) refl, rw (found, get_proxy_traffic) refl)
]

pub stats_of-SameCounts :
    (t : Clock) (type name : String) (m : ServerStatistics)
    → SameCounts (stats_of t type name m).0 m
unfolding stats_of
stats_of-SameCounts t type name m = elim (Option-cases (m.proxy_statistics name)) [
  | inl missing ↦ (rw (missing, stats_of) refl, rw (missing, stats_of) refl)
  | inr (p, found) ↦ elim (Bool-cases (str_eq p.proxy_type type)) [
    | inl same ↦ (rw (found, same, stats_of) refl, rw (found, same, stats_of) refl)
    | inr other ↦ (rw (found, other, stats_of) refl, rw (found, other, stats_of) refl)
  ]
]

pub get_proxies_by_type-SameCounts :
    (t : Clock) (type : String) (names : List String) (m : ServerStatistics)
    → SameCounts (get_proxies_by_type t type names m).0 m
unfolding get_proxies_by_type
get_proxies_by_type-SameCounts t type [] m = (refl, refl)
get_proxies_by_type-SameCounts t type (name ∷ names) m =
    let now = stats_of-SameCounts t type name m in
    let rest = get_proxies_by_type-SameCounts t type names (stats_of t type name m).0 in
    (rest.0 ∙ now.0, rest.1 ∙ now.1)
