-- ===== src/Tests/Tables.antt =====
-- The rows of a closed proxy.
use frp.Prelude.{◌≡◌, refl, none, pos}
use frp.Web.Json.{text, num, to_text}
use frp.Web.Proxy.{
  ProxyStats, tcp_proxy, udp_proxy, http_proxy, https_proxy, stcp_proxy, sudp_proxy,
}
use frp.Web.Tables.{danger, tcp_view, udp_view, http_view, https_view, stcp_view, sudp_view}
use frp.Web.Tables.Closed.{NoUndefined, IsEntry, views-NoUndefined}

abbrev closed : ProxyStats
closed = record {
  name = text "ssh";
  conf = none;
  cur_conns = num (pos 0);
  today_traffic_in = num (pos 12);
  today_traffic_out = num (pos 4);
  last_start_time = text "01-02 15:04:05";
  last_close_time = text "01-02 16:04:05";
  status = text "offline";
}

closed-IsEntry : IsEntry closed
closed-IsEntry = record {
  name = tt;
  cur_conns = tt;
  last_start_time = tt;
  last_close_time = tt;
  status = tt;
}

views-NoUndefined_example :
    NoUndefined (tcp_view to_text (tcp_proxy closed))
    × NoUndefined (udp_view to_text (udp_proxy closed))
    × NoUndefined (http_view to_text (http_proxy closed (num (pos 80)) (text "frp.io")))
    × NoUndefined (https_view to_text (https_proxy closed (num (pos 80)) (text "frp.io")))
    × NoUndefined (stcp_view to_text (stcp_proxy closed))
    × NoUndefined (sudp_view to_text (sudp_proxy closed))
views-NoUndefined_example =
    views-NoUndefined to_text closed (num (pos 80)) (text "frp.io") refl closed-IsEntry tt

closed_in_red : (tcp_view to_text (tcp_proxy closed)).tag ≡ danger
unfolding tcp_view tcp_proxy
closed_in_red = refl
