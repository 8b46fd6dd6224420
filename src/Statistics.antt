-- ===== src/Statistics.antt =====
-- serverMetrics of pkg/metrics/mem/server.go: what frps counts of its clients, proxies, connections and
-- traffic. The maps are functions from their keys. A time is in seconds, and `none` is Go's zero time.
-- The mutex makes each method one step. A number of bytes is an int64, given as its 64-bit word.
pub mod Report
pub mod Counted
pub mod Run
pub mod Tracks
pub mod Invariant
pub mod Traffic
pub mod Clearing
pub mod Open
pub mod Kept
pub mod Untouched
pub mod Balance
use frp.Prelude.{
  map, ℕ, ◌+◌, ◌-◌, ◌*◌, String, str_eq, Bool, true, false, not, ◌&&◌, ltb, if◌then◌else◌, Option,
  none, some, List, [], ◌∷◌, ℤ, update_name, get_or,
}
use frp.Metric.Word.{mod32, mod64, signed}
use frp.Metric.Counter
use frp.Metric.Counter.{Counter}
use frp.Metric.DateCounter
use frp.Metric.DateCounter.{DateCounter}

-- `time.Now()`, and the instant of the last local midnight.
pub record Clock : Type 0 where
  pub now : ℕ
  pub midnight : ℕ

pub record ProxyStatistics : Type 0 where
  pub name : String
  pub proxy_type : String
  pub traffic_in : DateCounter
  pub traffic_out : DateCounter
  pub cur_conns : Counter
  pub last_start_time : Option ℕ
  pub last_close_time : Option ℕ

pub record ServerStatistics : Type 0 where
  pub total_traffic_in : DateCounter
  pub total_traffic_out : DateCounter
  pub cur_conns : Counter
  pub client_counts : Counter
  pub proxy_type_counts : String → Option Counter
  pub proxy_statistics : String → Option ProxyStatistics

abbrev pub reserve_days : ℕ
reserve_days = 7

unfoldable pub new_server_metrics : Clock → ServerStatistics
new_server_metrics t = record {
  total_traffic_in = DateCounter.new_date_counter reserve_days t.midnight;
  total_traffic_out = DateCounter.new_date_counter reserve_days t.midnight;
  cur_conns = Counter.new_counter;
  client_counts = Counter.new_counter;
  proxy_type_counts = λ type. none;
  proxy_statistics = λ name. none;
}

-- A change of the statistics of a proxy, if there are any.
unfoldable pub change_proxy :
    String → (ProxyStatistics → ProxyStatistics) → ServerStatistics → ServerStatistics
change_proxy name change m = elim (m.proxy_statistics name) [
  | none ↦ m
  | some p ↦ record m { proxy_statistics = update_name m.proxy_statistics name (some (change p)) }
]

unfoldable pub new_client : ServerStatistics → ServerStatistics
new_client m = record m { client_counts = Counter.inc m.client_counts 1 }

unfoldable pub close_client : ServerStatistics → ServerStatistics
close_client m = record m { client_counts = Counter.dec m.client_counts 1 }

abbrev pub counter_or_new : Option Counter → Counter
counter_or_new none = Counter.new_counter
counter_or_new (some c) = c

abbrev pub fresh_proxy : Clock → String → String → ProxyStatistics
fresh_proxy t name type = record {
  name = name;
  proxy_type = type;
  traffic_in = DateCounter.new_date_counter reserve_days t.midnight;
  traffic_out = DateCounter.new_date_counter reserve_days t.midnight;
  cur_conns = Counter.new_counter;
  last_start_time = none;
  last_close_time = none;
}

-- The statistics under the name if they are of this type, else fresh ones.
abbrev pub proxy_or_fresh : Clock → String → String → Option ProxyStatistics → ProxyStatistics
proxy_or_fresh t name type none = fresh_proxy t name type
proxy_or_fresh t name type (some p) =
    if str_eq p.proxy_type type then p else fresh_proxy t name type

-- NewProxy
unfoldable pub new_proxy : Clock → String → String → ServerStatistics → ServerStatistics
new_proxy t name type m =
    let counter = Counter.inc (counter_or_new (m.proxy_type_counts type)) 1 in
    let p = proxy_or_fresh t name type (m.proxy_statistics name) in
    record m {
      proxy_type_counts = update_name m.proxy_type_counts type (some counter);
      proxy_statistics =
          update_name m.proxy_statistics name (some (record p { last_start_time = some t.now }));
    }

abbrev pub dec_type : String → ServerStatistics → ServerStatistics
dec_type type m = elim (m.proxy_type_counts type) [
  | none ↦ m
  | some c ↦ record m {
    proxy_type_counts = update_name m.proxy_type_counts type (some (Counter.dec c 1));
  }
]

-- CloseProxy
unfoldable pub close_proxy : Clock → String → String → ServerStatistics → ServerStatistics
unfolding change_proxy
close_proxy t name type m =
    change_proxy name (λ p. record p { last_close_time = some t.now }) (dec_type type m)

-- OpenConnection
unfoldable pub open_connection : String → ServerStatistics → ServerStatistics
unfolding change_proxy
open_connection name m =
    change_proxy name (λ p. record p { cur_conns = Counter.inc p.cur_conns 1 })
      (record m { cur_conns = Counter.inc m.cur_conns 1 })

-- CloseConnection
unfoldable pub close_connection : String → ServerStatistics → ServerStatistics
unfolding change_proxy
close_connection name m =
    change_proxy name (λ p. record p { cur_conns = Counter.dec p.cur_conns 1 })
      (record m { cur_conns = Counter.dec m.cur_conns 1 })

-- AddTrafficIn
unfoldable pub add_traffic_in : Clock → String → ℕ → ServerStatistics → ServerStatistics
unfolding change_proxy
add_traffic_in t name bytes m =
    change_proxy name (λ p. record p { traffic_in = DateCounter.inc t.midnight bytes p.traffic_in })
      (record m { total_traffic_in = DateCounter.inc t.midnight bytes m.total_traffic_in })

-- AddTrafficOut
unfoldable pub add_traffic_out : Clock → String → ℕ → ServerStatistics → ServerStatistics
unfolding change_proxy
add_traffic_out t name bytes m =
    change_proxy name
      (λ p. record p { traffic_out = DateCounter.inc t.midnight bytes p.traffic_out })
      (record m { total_traffic_out = DateCounter.inc t.midnight bytes m.total_traffic_out })

-- `!close.IsZero() && start.Before(close) && time.Since(close) > 7 days`
unfoldable pub is_useless : ℕ → ProxyStatistics → Bool
is_useless now p = elim p.last_close_time [
  | none ↦ false
  | some closed ↦
      elim p.last_start_time [ none ↦ true | some started ↦ ltb started closed ]
      && ltb (7 * 24 * 3600) (now - closed)
]

abbrev pub unless_useless : ℕ → Option ProxyStatistics → Option ProxyStatistics
unless_useless now none = none
unless_useless now (some p) = if is_useless now p then none else some p

-- clearUselessInfo
unfoldable pub clear_useless_info : ℕ → ServerStatistics → ServerStatistics
unfolding is_useless
clear_useless_info now m = record m {
  proxy_statistics = λ name. unless_useless now (m.proxy_statistics name);
}

-- ProxyTrafficInfo, the counts read as int64.
pub record ProxyTrafficInfo : Type 0 where
  pub name : String
  pub traffic_in : List ℤ
  pub traffic_out : List ℤ

-- GetProxyTraffic: reading a counter moves it to the present day.
unfoldable pub get_proxy_traffic :
    Clock → String → ServerStatistics → ServerStatistics × Option ProxyTrafficInfo
get_proxy_traffic t name m = elim (m.proxy_statistics name) [
  | none ↦ (m, none)
  | some p ↦
      let (traffic_in, ins) =
        DateCounter.get_last_days_count t.midnight reserve_days p.traffic_in in
      let (traffic_out, outs) =
        DateCounter.get_last_days_count t.midnight reserve_days p.traffic_out in
      (
        record m {
          proxy_statistics =
              update_name m.proxy_statistics name
                (some (record p { traffic_in = traffic_in; traffic_out = traffic_out }));
        },
        some (record {
          name = name;
          traffic_in = map (signed mod64) ins;
          traffic_out = map (signed mod64) outs;
        }),
      )
]
