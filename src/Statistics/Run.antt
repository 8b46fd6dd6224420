-- ===== src/Statistics/Run.antt =====
-- The calls of the statistics in any order, on days of 24 hours.
use frp.Prelude.{ℕ, ◌*◌, ◌≤◌, ◌≡◌, String, str_eq, if◌then◌else◌, List, [], ◌∷◌}
use frp.Metric.DateCounter.{day_seconds}
use frp.Metric.DateCounter.Totals.{Entry}
use frp.Statistics.{
  Clock, ServerStatistics, new_client, close_client, new_proxy, close_proxy, open_connection,
  close_connection, add_traffic_in, add_traffic_out, clear_useless_info, get_proxy_traffic,
}
use frp.Statistics.Report.{get_server, get_proxies_by_type, get_proxies_by_type_and_name}

-- A call; the report on a type has the names in the order in which the loop meets them.
pub data Action : Type 0 where
  client_opened client_closed cleared server_reported : Action
  proxy_opened proxy_closed proxy_reported : String → String → Action
  connection_opened connection_closed traffic_reported : String → Action
  received sent : String → ℕ → Action
  proxies_reported : String → List String → Action

pub record Event : Type 0 where
  pub day : ℕ
  pub now : ℕ
  pub action : Action

abbrev pub clock_of : Event → Clock
clock_of e = record { now = e.now; midnight = e.day * day_seconds }

unfoldable pub apply : Clock → Action → ServerStatistics → ServerStatistics
apply t client_opened m = new_client m
apply t client_closed m = close_client m
apply t cleared m = clear_useless_info t.now m
apply t server_reported m = (get_server t m).0
apply t (proxy_opened name type) m = new_proxy t name type m
apply t (proxy_closed name type) m = close_proxy t name type m
apply t (proxy_reported type name) m = (get_proxies_by_type_and_name t type name m).0
apply t (connection_opened name) m = open_connection name m
apply t (connection_closed name) m = close_connection name m
apply t (traffic_reported name) m = (get_proxy_traffic t name m).0
apply t (received name bytes) m = add_traffic_in t name bytes m
apply t (sent name bytes) m = add_traffic_out t name bytes m
apply t (proxies_reported type names) m = (get_proxies_by_type t type names m).0

-- The statistics after the events, the newest first.
unfoldable pub run : ServerStatistics → List Event → ServerStatistics
unfolding apply
run m [] = m
run m (e ∷ es) = apply (clock_of e) e.action (run m es)

-- What an action adds to the incoming traffic of a proxy.
abbrev pub cons_received : String → ℕ → Action → List Entry → List Entry
cons_received name day (received n bytes) entries =
    if str_eq n name then record { day = day; amount = bytes } ∷ entries else entries
cons_received name day _ entries = entries

abbrev pub cons_sent : String → ℕ → Action → List Entry → List Entry
cons_sent name day (sent n bytes) entries =
    if str_eq n name then record { day = day; amount = bytes } ∷ entries else entries
cons_sent name day _ entries = entries

abbrev pub received_by : String → List Event → List Entry
received_by name [] = []
received_by name (e ∷ es) = cons_received name e.day e.action (received_by name es)

abbrev pub sent_by : String → List Event → List Entry
sent_by name [] = []
sent_by name (e ∷ es) = cons_sent name e.day e.action (sent_by name es)

-- The proxy is not opened anew under another type, and a clearing leaves it.
abbrev pub Keeps : String → String → ℕ → Action → ServerStatistics → Type 0
Keeps name type now (proxy_opened n t) m = n ≡ name → t ≡ type
Keeps name type now cleared m =
    (clear_useless_info now m).proxy_statistics name ≡ m.proxy_statistics name
Keeps name type now _ m = Unit

-- The day of the newest event, `first` if there is none.
abbrev pub newest_day : ℕ → List Event → ℕ
newest_day first [] = first
newest_day first (e ∷ es) = e.day

-- The days do not go backwards from `first` on, and each event keeps the proxy.
abbrev pub IsRun : String → String → ℕ → ServerStatistics → List Event → Type 0
IsRun name type first m [] = Unit
IsRun name type first m (e ∷ es) =
    (newest_day first es ≤ e.day)
    × Keeps name type e.now e.action (run m es)
    × IsRun name type first m es
