-- ===== src/Dashboard/Counts.antt =====
-- The counts of the overview page, from the calls of the server's statistics on.
use frp.Prelude.{◌-◌, ◌<◌, ◌≤◌, ◌≡◌, ap, pos, String, List}
use frp.Statistics.{Clock, new_server_metrics}
use frp.Statistics.Run.{Event, run}
use frp.Statistics.Balance.{opens, closes, client_change, connection_change, get_server-run}
use frp.Web.Json.{num}
use frp.Web.Overview.{Overview, on_server_info, show_info}
use frp.Dashboard.{ServerConf, server_info_resp, api_server_info}

-- From the start of frps on, after any calls of its statistics, reports included, if no more clients and no
-- more connections were closed than opened and fewer than 2^31 of either are open, Overview.vue shows what
-- api/serverinfo sends it as Client Counts, the number of clients that are open, and as Current
-- Connections, the number of connections that are.
pub on_server_info-run :
    (t now : Clock) (es : List Event) (version : String) (cfg : ServerConf) (types : List String)
    (page : Overview)
    → closes client_change es ≤ opens client_change es
    → opens client_change es - closes client_change es < 2147483648
    → closes connection_change es ≤ opens connection_change es
    → opens connection_change es - closes connection_change es < 2147483648
    → ((on_server_info
          (api_server_info now version cfg types (run (new_server_metrics t) es)).1
          page).0.client_counts
        ≡ num (pos (opens client_change es - closes client_change es)))
      × ((on_server_info
            (api_server_info now version cfg types (run (new_server_metrics t) es)).1
            page).0.cur_conns
          ≡ num (pos (opens connection_change es - closes connection_change es)))
unfolding on_server_info show_info api_server_info server_info_resp
on_server_info-run t now es version cfg types page more few more_conns few_conns =
    let (clients, conns) = get_server-run t now es more few more_conns few_conns in
    (ap num clients, ap num conns)
