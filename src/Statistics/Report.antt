-- ===== src/Statistics/Report.antt =====
-- GetServer, GetProxiesByType and GetProxiesByTypeAndName of pkg/metrics/mem/server.go. Reading a day's
-- count moves the counter to the present day, so a reader changes the statistics too.
use frp.Prelude.{
  ℕ, String, str_eq, if◌then◌else◌, Option, none, some, List, [], ◌∷◌, ℤ, update_name,
}
use mathlib.Core.Option
use frp.Metric.Word.{mod32, mod64, signed}
use frp.Metric.Counter.{Counter}
use frp.Metric.DateCounter
use frp.Metric.DateCounter.{DateCounter}
use frp.Statistics.{Clock, ProxyStatistics, ServerStatistics}

-- ServerStats
pub record ServerStats : Type 0 where
  pub total_traffic_in : ℤ
  pub total_traffic_out : ℤ
  pub cur_conns : ℤ
  pub client_counts : ℤ
  pub proxy_type_counts : String → Option ℤ

-- `int64(c.Count())` of an int32
abbrev pub count : Counter → ℤ
count c = signed mod32 c.count

-- GetServer
unfoldable pub get_server : Clock → ServerStatistics → ServerStatistics × ServerStats
get_server t m =
    let (total_in, today_in) = DateCounter.today_count t.midnight m.total_traffic_in in
    let (total_out, today_out) = DateCounter.today_count t.midnight m.total_traffic_out in
    (
      record m { total_traffic_in = total_in; total_traffic_out = total_out },
      record {
        total_traffic_in = signed mod64 today_in;
        total_traffic_out = signed mod64 today_out;
        cur_conns = count m.cur_conns;
        client_counts = count m.client_counts;
        proxy_type_counts = λ type. Option.map count (m.proxy_type_counts type);
      },
    )

-- ProxyStats; its two times are kept as they are, and formatted where they are shown.
pub record ProxyStats : Type 0 where
  pub name : String
  pub proxy_type : String
  pub today_traffic_in : ℤ
  pub today_traffic_out : ℤ
  pub last_start_time : Option ℕ
  pub last_close_time : Option ℕ
  pub cur_conns : ℤ

-- The body of the loops of GetProxiesByType and GetProxiesByTypeAndName.
unfoldable pub proxy_stats : Clock → String → ProxyStatistics → ProxyStatistics × ProxyStats
proxy_stats t name p =
    let (traffic_in, today_in) = DateCounter.today_count t.midnight p.traffic_in in
    let (traffic_out, today_out) = DateCounter.today_count t.midnight p.traffic_out in
    (
      record p { traffic_in = traffic_in; traffic_out = traffic_out },
      record {
        name = name;
        proxy_type = p.proxy_type;
        today_traffic_in = signed mod64 today_in;
        today_traffic_out = signed mod64 today_out;
        last_start_time = p.last_start_time;
        last_close_time = p.last_close_time;
        cur_conns = count p.cur_conns;
      },
    )

-- What is reported of a name, if it has statistics of this type.
unfoldable pub stats_of :
    Clock → String → String → ServerStatistics → ServerStatistics × Option ProxyStats
stats_of t type name m = elim (m.proxy_statistics name) [
  | none ↦ (m, none)
  | some p ↦
      if str_eq p.proxy_type type
      then (let (p', stats) = proxy_stats t name p in
          (
            record m { proxy_statistics = update_name m.proxy_statistics name (some p') },
            some stats,
          ))
      else (m, none)
]

abbrev pub cons_stats : Option ProxyStats → List ProxyStats → List ProxyStats
cons_stats none stats = stats
cons_stats (some s) stats = s ∷ stats

-- GetProxiesByType, over the names in the order in which the loop meets them.
unfoldable pub get_proxies_by_type :
    Clock → String → List String → ServerStatistics → ServerStatistics × List ProxyStats
unfolding stats_of
get_proxies_by_type t type [] m = (m, [])
get_proxies_by_type t type (name ∷ names) m =
    let (m', stats) = stats_of t type name m in
    let (m'', rest) = get_proxies_by_type t type names m' in (m'', cons_stats stats rest)

-- GetProxiesByTypeAndName looks for the one entry of the map that has this type and name.
unfoldable pub get_proxies_by_type_and_name :
    Clock → String → String → ServerStatistics → ServerStatistics × Option ProxyStats
unfolding stats_of
get_proxies_by_type_and_name t type name m = stats_of t type name m
