-- ===== src/Web/Overview.antt =====
-- web/frps/src/components/Overview.vue: the page that shows the reply to api/serverinfo.
pub mod Laws
use frp.Prelude.{ℤ, pos, ◌+ℤ◌, Option, none, some, String, List, [], ◌∷◌, if◌then◌else◌}
use frp.Web.Json.{Field, text, num, number, eq_zero, Reply, body, rejected}
use frp.Web.Tables.{Cell}
use frp.Web.Chart.{Pie, TypeCounts, count_of, traffic_chart, proxy_chart}

-- The keys of the reply that the page reads (serverInfoResp in server/dashboard_api.go).
pub record ServerInfo : Type 0 where
  pub version : Field
  pub bind_port : Field
  pub bind_udp_port : Option ℤ
  pub vhost_http_port : Option ℤ
  pub vhost_https_port : Option ℤ
  pub subdomain_host : Field
  pub max_pool_count : Field
  pub max_ports_per_client : Option ℤ
  pub heart_beat_timeout : Field
  pub client_counts : Field
  pub cur_conns : Field
  pub proxy_type_count : Option TypeCounts
  pub total_traffic_in : ℤ
  pub total_traffic_out : ℤ

-- `data()`
pub record Overview : Type 0 where
  pub version : Field
  pub bind_port : Field
  pub bind_udp_port : Field
  pub vhost_http_port : Field
  pub vhost_https_port : Field
  pub subdomain_host : Field
  pub max_pool_count : Field
  pub max_ports_per_client : Field
  pub heart_beat_timeout : Field
  pub client_counts : Field
  pub cur_conns : Field
  pub proxy_counts : Field

-- What the page asks for, in order; a warning is a call of this.$message.
pub data Effect : Type 0 where
  draw : String → Pie → Effect
  warn : String → Effect

abbrev pub blank : Overview
blank = record {
  version = text "";
  bind_port = text "";
  bind_udp_port = text "";
  vhost_http_port = text "";
  vhost_https_port = text "";
  subdomain_host = text "";
  max_pool_count = text "";
  max_ports_per_client = text "";
  heart_beat_timeout = text "";
  client_counts = text "";
  cur_conns = text "";
  proxy_counts = text "";
}

-- `this.x = json.x; if (this.x == 0) { this.x = instead }`
unfoldable pub or_instead : String → Option ℤ → Field
or_instead instead n = if eq_zero n then text instead else number n

-- `if (counts.key != null) { this.proxy_counts += counts.key }`
unfoldable pub add_count : TypeCounts → String → ℤ → ℤ
add_count counts key sum = elim (count_of key counts) [ none ↦ sum | some n ↦ sum +ℤ n ]

unfoldable pub proxy_count : Option TypeCounts → ℤ
unfolding add_count
proxy_count none = pos 0
proxy_count (some counts) =
    let add = add_count counts in
    add "xtcp" (add "sudp" (add "stcp" (add "https" (add "http" (add "udp" (add "tcp" (pos 0)))))))

unfoldable pub show_info : ServerInfo → Overview
unfolding or_instead proxy_count
show_info json = record {
  version = json.version;
  bind_port = json.bind_port;
  bind_udp_port = or_instead "disable" json.bind_udp_port;
  vhost_http_port = or_instead "disable" json.vhost_http_port;
  vhost_https_port = or_instead "disable" json.vhost_https_port;
  subdomain_host = json.subdomain_host;
  max_pool_count = json.max_pool_count;
  max_ports_per_client = or_instead "no limit" json.max_ports_per_client;
  heart_beat_timeout = json.heart_beat_timeout;
  client_counts = json.client_counts;
  cur_conns = json.cur_conns;
  proxy_counts = num (proxy_count json.proxy_type_count);
}

-- DrawProxyChart reads a key of `proxy_type_count` unguarded, so a null there throws, and the
-- handler of `catch` runs, after the fields are set and the first chart is drawn.
unfoldable pub draw_proxies : Option TypeCounts → Effect
draw_proxies none = warn "Get server info from frps failed!"
draw_proxies (some counts) = draw "proxies" (proxy_chart counts)

-- One `fetchData`, from its reply on.
unfoldable pub on_server_info : Reply ServerInfo → Overview → Overview × List Effect
unfolding show_info draw_proxies
on_server_info rejected page = (page, warn "Get server info from frps failed!" ∷ [])
on_server_info (body json) page = (
  show_info json,
  draw "traffic" (traffic_chart json.total_traffic_in json.total_traffic_out)
      ∷ draw_proxies json.proxy_type_count
      ∷ [],
)

-- The template: the labelled texts, in order.
unfoldable pub overview_items : Overview → List Cell
overview_items page =
    record { label = "Version"; value = page.version }
    ∷ record { label = "BindPort"; value = page.bind_port }
    ∷ record { label = "BindUdpPort"; value = page.bind_udp_port }
    ∷ record { label = "Http Port"; value = page.vhost_http_port }
    ∷ record { label = "Https Port"; value = page.vhost_https_port }
    ∷ record { label = "Subdomain Host"; value = page.subdomain_host }
    ∷ record { label = "Max PoolCount"; value = page.max_pool_count }
    ∷ record { label = "Max Ports Per Client"; value = page.max_ports_per_client }
    ∷ record { label = "HeartBeat Timeout"; value = page.heart_beat_timeout }
    ∷ record { label = "Client Counts"; value = page.client_counts }
    ∷ record { label = "Current Connections"; value = page.cur_conns }
    ∷ record { label = "Proxy Counts"; value = page.proxy_counts }
    ∷ []
