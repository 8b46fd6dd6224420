-- ===== src/Web/Proxy.antt =====
-- web/frps/src/utils/proxy.js: the rows that the proxy tables show. A class is a record of the
-- fields that its constructor sets, over the record of its superclass.
pub mod Laws
use frp.Prelude.{String, ◌⋅◌, Bool, ℤ, Option, none, some, not, if◌then◌else◌}
use frp.Web.Json.{Field, text, num, bool, to_text, eq_empty}

-- `conf` of an entry; which keys it has depends on the type of the proxy.
pub record ProxyConf : Type 0 where
  pub use_encryption : Field
  pub use_compression : Field
  pub remote_port : Field
  pub custom_domains : Field
  pub host_header_rewrite : Field
  pub locations : Field
  pub subdomain : Field

-- An entry of the reply to api/proxy/:type; `none` is a `conf` of null.
pub record ProxyStats : Type 0 where
  pub name : Field
  pub conf : Option ProxyConf
  pub cur_conns : Field
  pub today_traffic_in : Field
  pub today_traffic_out : Field
  pub last_start_time : Field
  pub last_close_time : Field
  pub status : Field

pub record BaseProxy : Type 0 where
  pub name : Field
  pub encryption : Field
  pub compression : Field
  pub conns : Field
  pub traffic_in : Field
  pub traffic_out : Field
  pub last_start_time : Field
  pub last_close_time : Field
  pub status : Field

-- `proxyStats.conf != null ? proxyStats.conf.key : ""`
abbrev pub conf_or_empty : (ProxyConf → Field) → Option ProxyConf → Field
conf_or_empty key none = text ""
conf_or_empty key (some conf) = key conf

unfoldable pub base_proxy : ProxyStats → BaseProxy
base_proxy s = record {
  name = s.name;
  encryption = conf_or_empty (λ c. c.use_encryption) s.conf;
  compression = conf_or_empty (λ c. c.use_compression) s.conf;
  conns = s.cur_conns;
  traffic_in = s.today_traffic_in;
  traffic_out = s.today_traffic_out;
  last_start_time = s.last_start_time;
  last_close_time = s.last_close_time;
  status = s.status;
}

-- TcpProxy and UdpProxy
pub record PortProxy : Type 0 where
  pub base : BaseProxy
  pub open base use *
  pub kind : String
  pub addr : Field
  pub port : Field

unfoldable pub tcp_proxy : ProxyStats → PortProxy
unfolding base_proxy
tcp_proxy s = record {
  base = base_proxy s;
  kind = "tcp";
  addr = conf_or_empty (λ c. text (":" ⋅ to_text c.remote_port)) s.conf;
  port = conf_or_empty (λ c. c.remote_port) s.conf;
}

unfoldable pub udp_proxy : ProxyStats → PortProxy
unfolding base_proxy
udp_proxy s = record {
  base = base_proxy s;
  kind = "udp";
  addr = conf_or_empty (λ c. text (":" ⋅ to_text c.remote_port)) s.conf;
  port = conf_or_empty (λ c. c.remote_port) s.conf;
}

-- `conf.subdomain != "" ? conf.subdomain + "." + subdomain_host : ""`
abbrev pub full_subdomain : Field → ProxyConf → Field
full_subdomain host c =
    if not (eq_empty c.subdomain) then text (to_text c.subdomain ⋅ "." ⋅ to_text host) else text ""

pub record HttpProxy : Type 0 where
  pub base : BaseProxy
  pub open base use *
  pub kind : String
  pub port : Field
  pub custom_domains : Field
  pub host_header_rewrite : Field
  pub locations : Field
  pub subdomain : Field

unfoldable pub http_proxy : ProxyStats → Field → Field → HttpProxy
unfolding base_proxy
http_proxy s port subdomain_host = record {
  base = base_proxy s;
  kind = "http";
  port = port;
  custom_domains = conf_or_empty (λ c. c.custom_domains) s.conf;
  host_header_rewrite = conf_or_empty (λ c. c.host_header_rewrite) s.conf;
  locations = conf_or_empty (λ c. c.locations) s.conf;
  subdomain = conf_or_empty (full_subdomain subdomain_host) s.conf;
}

pub record HttpsProxy : Type 0 where
  pub base : BaseProxy
  pub open base use *
  pub kind : String
  pub port : Field
  pub custom_domains : Field
  pub subdomain : Field

unfoldable pub https_proxy : ProxyStats → Field → Field → HttpsProxy
unfolding base_proxy
https_proxy s port subdomain_host = record {
  base = base_proxy s;
  kind = "https";
  port = port;
  custom_domains = conf_or_empty (λ c. c.custom_domains) s.conf;
  subdomain = conf_or_empty (full_subdomain subdomain_host) s.conf;
}

-- StcpProxy and SudpProxy
pub record PlainProxy : Type 0 where
  pub base : BaseProxy
  pub open base use *
  pub kind : String

unfoldable pub stcp_proxy : ProxyStats → PlainProxy
unfolding base_proxy
stcp_proxy s = record { base = base_proxy s; kind = "stcp" }

unfoldable pub sudp_proxy : ProxyStats → PlainProxy
unfolding base_proxy
sudp_proxy s = record { base = base_proxy s; kind = "sudp" }
