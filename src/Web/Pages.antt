-- ===== src/Web/Pages.antt =====
-- The pages with a table of proxies whose only request is api/proxy/:type: ProxiesTcp.vue,
-- ProxiesUdp.vue, ProxiesStcp.vue and ProxiesSudp.vue of web/frps/src/components. They differ in the
-- type that they ask for and in the class of their rows.
pub mod Runs
use frp.Prelude.{ℕ, suc, ◌+◌, ◌-◌, ◌<◌, List, [], ◌∷◌, ◌++◌, Option, none, some}
use frp.Web.Json.{Reply, body, rejected}
use frp.Web.Proxy.{ProxyStats, PortProxy, PlainProxy, tcp_proxy, udp_proxy, stcp_proxy, sudp_proxy}

-- How a promise chain without a `catch` ends.
pub data Settled : Type 0 where
  fulfilled unhandled : Settled

-- `proxies`, and how many requests wait for their reply.
pub record Page (Row : Type 0) : Type 0 where
  pub proxies : List Row
  pub in_flight : ℕ

-- `json.proxies`, null or missing as `none`.
abbrev pub Proxies : Type 0
Proxies = Option (List ProxyStats)

module _ {Row : Type 0} where
  -- `for (let proxyStats of json.proxies) { this.proxies.push(new Row(proxyStats)) }`
  unfoldable pub push_rows : (ProxyStats → Row) → List Row → List ProxyStats → List Row
  push_rows row rows [] = rows
  push_rows row rows (s ∷ stats) = push_rows row (rows ++ row s ∷ []) stats

  -- `fetchData`, called when the page is created and when the route changes.
  unfoldable pub fetch_data : Page Row → Page Row
  fetch_data p = record p { in_flight = p.in_flight + 1 }

  -- The reply to one request. To iterate over null throws, after the table was emptied.
  unfoldable pub on_proxies : (ProxyStats → Row) → Reply Proxies → Page Row → Page Row × Settled
  unfolding push_rows
  on_proxies row rejected p = (record p { in_flight = p.in_flight - 1 }, unhandled)
  on_proxies row (body none) p = (record { proxies = []; in_flight = p.in_flight - 1 }, unhandled)
  on_proxies row (body (some stats)) p =
      (record { proxies = push_rows row [] stats; in_flight = p.in_flight - 1 }, fulfilled)

  -- The page after `created`.
  abbrev pub created : Page Row
  created = record { proxies = []; in_flight = 1 }

unfoldable pub tcp_page : Reply Proxies → Page PortProxy → Page PortProxy × Settled
unfolding on_proxies tcp_proxy
tcp_page = on_proxies tcp_proxy

unfoldable pub udp_page : Reply Proxies → Page PortProxy → Page PortProxy × Settled
unfolding on_proxies udp_proxy
udp_page = on_proxies udp_proxy

unfoldable pub stcp_page : Reply Proxies → Page PlainProxy → Page PlainProxy × Settled
unfolding on_proxies stcp_proxy
stcp_page = on_proxies stcp_proxy

unfoldable pub sudp_page : Reply Proxies → Page PlainProxy → Page PlainProxy × Settled
unfolding on_proxies sudp_proxy
sudp_page = on_proxies sudp_proxy
