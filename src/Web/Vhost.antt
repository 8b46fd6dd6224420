-- ===== src/Web/Vhost.antt =====
-- ProxiesHttp.vue and ProxiesHttps.vue of web/frps/src/components: the pages that ask for
-- api/serverinfo first, and for the list of proxies only if the port there is set. They differ in the
-- key of the port and in the class of their rows.
pub mod Calm
use frp.Prelude.{
  false, true, ℕ, ◌+◌, ◌-◌, ℤ, List, [], ◌∷◌, ◌++◌, Option, none, some, Bool, ◌||◌, if◌then◌else◌,
}
use frp.Web.Json.{Field, text, number, eq_zero, Reply, body, rejected}
use frp.Web.Proxy.{ProxyStats, HttpProxy, HttpsProxy, http_proxy, https_proxy}
use frp.Web.Overview.{ServerInfo}
use frp.Web.Pages.{Proxies, push_rows, Settled, fulfilled, unhandled}

-- The data of the component, and the requests of each kind that wait for their reply.
pub record VhostPage (Row : Type 0) : Type 0 where
  pub proxies : List Row
  pub vhost_port : Field
  pub subdomain_host : Field
  pub infos : ℕ
  pub lists : ℕ

-- `port == null`
abbrev pub missing : Option ℤ → Bool
missing none = true
missing (some n) = false

module _ {Row : Type 0} where
  abbrev pub vhost_created : VhostPage Row
  vhost_created = record {
    proxies = [];
    vhost_port = text "";
    subdomain_host = text "";
    infos = 1;
    lists = 0;
  }

  -- `fetchData`
  unfoldable pub fetch_info : VhostPage Row → VhostPage Row
  fetch_info p = record p { infos = p.infos + 1 }

  -- The reply to api/serverinfo, whose port stands under the key that `port_of` reads.
  unfoldable pub on_info :
      (ServerInfo → Option ℤ) → Reply ServerInfo → VhostPage Row → VhostPage Row × Settled
  on_info port_of rejected p = (record p { infos = p.infos - 1 }, unhandled)
  on_info port_of (body json) p =
      let q = record p {
        vhost_port = number (port_of json);
        subdomain_host = json.subdomain_host;
        infos = p.infos - 1;
      } in
      if missing (port_of json) || eq_zero (port_of json)
      then (q, fulfilled)
      else (record q { lists = p.lists + 1 }, fulfilled)

  -- The reply to api/proxy/:type. The rows read the port and the host that the page has by now.
  unfoldable pub on_list :
      (ProxyStats → Field → Field → Row) → Reply Proxies → VhostPage Row → VhostPage Row × Settled
  unfolding push_rows
  on_list row rejected p = (record p { lists = p.lists - 1 }, unhandled)
  on_list row (body none) p = (record p { proxies = []; lists = p.lists - 1 }, unhandled)
  on_list row (body (some stats)) p = (
    record p {
      proxies = push_rows (λ s. row s p.vhost_port p.subdomain_host) [] stats;
      lists = p.lists - 1;
    },
    fulfilled,
  )

unfoldable pub http_info : Reply ServerInfo → VhostPage HttpProxy → VhostPage HttpProxy × Settled
unfolding on_info
http_info = on_info (λ json. json.vhost_http_port)

unfoldable pub http_list : Reply Proxies → VhostPage HttpProxy → VhostPage HttpProxy × Settled
unfolding on_list http_proxy
http_list = on_list http_proxy

unfoldable pub https_info : Reply ServerInfo → VhostPage HttpsProxy → VhostPage HttpsProxy × Settled
unfolding on_info
https_info = on_info (λ json. json.vhost_https_port)

unfoldable pub https_list : Reply Proxies → VhostPage HttpsProxy → VhostPage HttpsProxy × Settled
unfolding on_list https_proxy
https_list = on_list https_proxy
