-- ===== src/Tests/Counts.antt =====
-- Two clients of which one has left, and a connection.
use frp.Prelude.{◌-◌, ◌≡◌, [], ◌∷◌, pos, arith, List}
use frp.Statistics.{Clock, new_server_metrics}
use frp.Statistics.Run.{Event, run, client_opened, client_closed, connection_opened, proxy_opened}
use frp.Statistics.Balance.{opens, closes, client_change, connection_change}
use frp.Web.Json.{num}
use frp.Web.Overview.{on_server_info, blank}
use frp.Dashboard.{ServerConf, api_server_info}
use frp.Dashboard.Counts.{on_server_info-run}

abbrev clock : Clock
clock = record { now = 1731600; midnight = 1728000 }

abbrev calls : List Event
calls =
    record { day = 20; now = 1731604; action = client_closed }
    ∷ record { day = 20; now = 1731603; action = connection_opened "web" }
    ∷ record { day = 20; now = 1731602; action = proxy_opened "web" "tcp" }
    ∷ record { day = 20; now = 1731601; action = client_opened }
    ∷ record { day = 20; now = 1731600; action = client_opened }
    ∷ []

abbrev cfg : ServerConf
cfg = record {
  bind_port = pos 7000;
  bind_udp_port = pos 0;
  vhost_http_port = pos 80;
  vhost_https_port = pos 0;
  sub_domain_host = "example.com";
  max_pool_count = pos 5;
  max_ports_per_client = pos 0;
  heartbeat_timeout = pos 90;
}

on_server_info-run_example :
    ((on_server_info
        (api_server_info clock "0.43.0" cfg ("tcp" ∷ []) (run (new_server_metrics clock) calls)).1
        blank).0.client_counts
      ≡ num (pos (opens client_change calls - closes client_change calls)))
    × ((on_server_info
          (api_server_info clock "0.43.0" cfg ("tcp" ∷ []) (run (new_server_metrics clock) calls)).1
          blank).0.cur_conns
        ≡ num (pos (opens connection_change calls - closes connection_change calls)))
on_server_info-run_example =
    on_server_info-run clock clock calls "0.43.0" cfg ("tcp" ∷ []) blank (omega arith) (omega arith)
      (omega arith) (omega arith)
