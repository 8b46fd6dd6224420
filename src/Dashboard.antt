-- ===== src/Dashboard.antt =====
-- server/dashboard_api.go: APIServerInfo and APIProxyTraffic, what api/serverinfo and api/traffic/:name reply.
-- The configuration of frps and its version are arguments, and so are the keys of a map in the order in
-- which JSON has them.
pub mod Bars
pub mod Counts
use frp.Prelude.{String, Option, none, some, List, [], ◌∷◌, ℤ}
use frp.Statistics.{Clock, ServerStatistics, ProxyTrafficInfo, get_proxy_traffic}
use frp.Web.Json.{Reply, body, rejected, text, num}
use frp.Web.Traffic.{TrafficReply}
use frp.Statistics.Report.{ServerStats, get_server}
use frp.Web.Chart.{TypeCounts}
use frp.Web.Overview.{ServerInfo}

-- The text of the 404 is no JSON, so the page's `res.json()` rejects it.
unfoldable pub traffic_reply : Option ProxyTrafficInfo → Reply TrafficReply
traffic_reply none = rejected
traffic_reply (some info) =
    body (record { traffic_in = some info.traffic_in; traffic_out = some info.traffic_out })

-- APIProxyTraffic
unfoldable pub api_proxy_traffic :
    Clock → String → ServerStatistics → ServerStatistics × Reply TrafficReply
unfolding traffic_reply
api_proxy_traffic t name m = let (m', info) = get_proxy_traffic t name m in (m', traffic_reply info)

-- The keys of the configuration that APIServerInfo sends.
pub record ServerConf : Type 0 where
  pub bind_port : ℤ
  pub bind_udp_port : ℤ
  pub vhost_http_port : ℤ
  pub vhost_https_port : ℤ
  pub sub_domain_host : String
  pub max_pool_count : ℤ
  pub max_ports_per_client : ℤ
  pub heartbeat_timeout : ℤ

abbrev pub cons_count : String → Option ℤ → TypeCounts → TypeCounts
cons_count type none counts = counts
cons_count type (some n) counts = (type, n) ∷ counts

abbrev pub type_counts : List String → (String → Option ℤ) → TypeCounts
type_counts [] counts = []
type_counts (type ∷ types) counts =
    let rest = type_counts types counts in cons_count type (counts type) rest

-- `serverInfoResp`, as the page reads it.
unfoldable pub server_info_resp : String → ServerConf → List String → ServerStats → ServerInfo
server_info_resp version cfg types stats = record {
  version = text version;
  bind_port = num cfg.bind_port;
  bind_udp_port = some cfg.bind_udp_port;
  vhost_http_port = some cfg.vhost_http_port;
  vhost_https_port = some cfg.vhost_https_port;
  subdomain_host = text cfg.sub_domain_host;
  max_pool_count = num cfg.max_pool_count;
  max_ports_per_client = some cfg.max_ports_per_client;
  heart_beat_timeout = num cfg.heartbeat_timeout;
  client_counts = num stats.client_counts;
  cur_conns = num stats.cur_conns;
  proxy_type_count = some (type_counts types stats.proxy_type_counts);
  total_traffic_in = stats.total_traffic_in;
  total_traffic_out = stats.total_traffic_out;
}

-- APIServerInfo
unfoldable pub api_server_info :
    Clock
    → String
    → ServerConf
    → List String
    → ServerStatistics
    → ServerStatistics × Reply ServerInfo
unfolding server_info_resp
api_server_info t version cfg types m =
    let (m', stats) = get_server t m in (m', body (server_info_resp version cfg types stats))
