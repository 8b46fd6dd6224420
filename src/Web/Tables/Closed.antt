-- ===== src/Web/Tables/Closed.antt =====
-- The rows of proxies that are closed, which have no configuration.
use frp.Prelude.{String, ◌≡◌, none, All}
use frp.Web.Json.{Field, undefined}
use frp.Web.Proxy.{
  ProxyStats, base_proxy, tcp_proxy, udp_proxy, http_proxy, https_proxy, stcp_proxy, sudp_proxy,
}
use frp.Web.Tables.{
  RowView, last_columns, last_details, tcp_view, udp_view, http_view, https_view, stcp_view,
  sudp_view,
}

abbrev pub IsDefined : Field → Type 0
IsDefined undefined = ⊥
IsDefined _ = Unit

-- The reply has the fields of the entry that do not stand under `conf`.
pub record IsEntry (s : ProxyStats) : Type 0 where
  pub name : IsDefined s.name
  pub cur_conns : IsDefined s.cur_conns
  pub last_start_time : IsDefined s.last_start_time
  pub last_close_time : IsDefined s.last_close_time
  pub status : IsDefined s.status

abbrev pub NoUndefined : RowView → Type 0
NoUndefined v = All (λ c. IsDefined c.value) v.details × All (λ c. IsDefined c.value) v.columns

module _ (file_size : Field → String) (s : ProxyStats) where
  -- A closed proxy, which the server sends with a conf of null, shows no undefined value in any of the
  -- six tables, if the other fields of its entry and the port of the page are there.
  pub views-NoUndefined :
      (port host : Field)
      → s.conf ≡ none
      → IsEntry s
      → IsDefined port
      → NoUndefined (tcp_view file_size (tcp_proxy s))
        × NoUndefined (udp_view file_size (udp_proxy s))
        × NoUndefined (http_view file_size (http_proxy s port host))
        × NoUndefined (https_view file_size (https_proxy s port host))
        × NoUndefined (stcp_view file_size (stcp_proxy s))
        × NoUndefined (sudp_view file_size (sudp_proxy s))
  unfolding base_proxy tcp_proxy udp_proxy http_proxy https_proxy stcp_proxy sudp_proxy last_columns
      last_details tcp_view udp_view http_view https_view stcp_view sudp_view
  views-NoUndefined port host closed h port_there = rw closed (
    (
      (h.name, (tt, (tt, (tt, (tt, (h.last_start_time, (h.last_close_time, tt))))))),
      (h.name, (tt, (h.cur_conns, (tt, (tt, (h.status, tt)))))),
    ),
    (
      (h.name, (tt, (tt, (tt, (tt, (h.last_start_time, (h.last_close_time, tt))))))),
      (h.name, (tt, (h.cur_conns, (tt, (tt, (h.status, tt)))))),
    ),
    (
      (
        h.name,
        (tt, (tt, (tt, (tt, (tt, (tt, (tt, (h.last_start_time, (h.last_close_time, tt))))))))),
      ),
      (h.name, (port_there, (h.cur_conns, (tt, (tt, (h.status, tt)))))),
    ),
    (
      (h.name, (tt, (tt, (tt, (tt, (tt, (h.last_start_time, (h.last_close_time, tt)))))))),
      (h.name, (port_there, (h.cur_conns, (tt, (tt, (h.status, tt)))))),
    ),
    (
      (h.name, (tt, (tt, (tt, (h.last_start_time, (h.last_close_time, tt)))))),
      (h.name, (h.cur_conns, (tt, (tt, (h.status, tt))))),
    ),
    (
      (h.name, (tt, (tt, (tt, (h.last_start_time, (h.last_close_time, tt)))))),
      (h.name, (h.cur_conns, (tt, (tt, (h.status, tt))))),
    ),
  )
