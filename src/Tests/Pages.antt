-- ===== src/Tests/Pages.antt =====
-- The pages of the frps dashboard, on small replies.
use frp.Prelude.{
  show_ℤ, ◌*◌, ℕ, All, ◌+◌, ℤ, pos, [], ◌∷◌, Option, some, ◌≡◌, refl, String, arith, history,
  recent, map, false,
}
use frp.Calendar.{date_of}
use frp.Web.Json.{Field, text, num, bool, undefined, body, rejected}
use frp.Web.Proxy.{ProxyStats, ProxyConf, PortProxy, HttpProxy, tcp_proxy, http_proxy}
use frp.Web.Proxy.Laws.{http_proxy_injective}
use frp.Web.Chart.{TypeCounts, proxy_slices, week_dates, proxy_traffic_chart}
use frp.Web.Chart.Pies.{total}
use frp.Web.Chart.Week.{day_label, week_dates-history, chart_aligned}
use frp.Web.Overview.{ServerInfo, proxy_count}
use frp.Web.Overview.Laws.{total-proxy_slices}
use frp.Web.Pages.{Page, fetch_data, on_proxies, created}
use frp.Web.Pages.Runs.{Run, start, navigate, answer, Run_lem}
use frp.Web.Vhost.{VhostPage, vhost_created, on_info, on_list}
use frp.Web.Vhost.Calm

abbrev counts : TypeCounts
counts = ("tcp", pos 3) ∷ ("xtcp", pos 0) ∷ ("tcpmux", pos 5) ∷ ("http", pos 2) ∷ []

slices_of_counts :
    proxy_slices counts
    ≡ record { value = pos 3; name = "TCP" } ∷ record { value = pos 2; name = "HTTP" } ∷ []
unfolding proxy_slices
slices_of_counts = refl

total-proxy_slices_example : total (proxy_slices counts) ≡ proxy_count (some counts)
total-proxy_slices_example = total-proxy_slices counts

-- Day 19057 is 6 March 2022.
week_over_february :
    week_dates (date_of 19057)
    ≡ "2022-2-28" ∷ "2022-3-1" ∷ "2022-3-2" ∷ "2022-3-3" ∷ "2022-3-4" ∷ "2022-3-5" ∷ "2022-3-6" ∷ []
unfolding week_dates
week_over_february = refl

week_dates-history_example : week_dates (date_of (19051 + 6)) ≡ history day_label 7 19051
week_dates-history_example = week_dates-history 19051

abbrev double : ℕ → ℤ
double n = pos (2 * n)

chart_aligned_example :
    proxy_traffic_chart (date_of (19051 + 6)) (recent double 7 19051) (recent pos 7 19051)
    ≡ record {
      dates = history day_label 7 19051;
      traffic_in = history double 7 19051;
      traffic_out = history pos 7 19051;
    }
chart_aligned_example = chart_aligned double pos 19051

abbrev conf_of : String → ProxyConf
conf_of subdomain = record {
  use_encryption = bool false;
  use_compression = bool false;
  remote_port = num (pos 6000);
  custom_domains = undefined;
  host_header_rewrite = text "";
  locations = undefined;
  subdomain = text subdomain;
}

abbrev stats_of : String → ProxyStats
stats_of name = record {
  name = text name;
  conf = some (conf_of name);
  cur_conns = num (pos 1);
  today_traffic_in = num (pos 10);
  today_traffic_out = num (pos 20);
  last_start_time = text "03-06 10:00:00";
  last_close_time = text "";
  status = text "online";
}

row_of_tcp : (tcp_proxy (stats_of "ssh")).addr ≡ text ":6000"
unfolding tcp_proxy show_ℤ
row_of_tcp = refl

row_of_http :
    (http_proxy (stats_of "www") (num (pos 80)) (text "frp.io")).subdomain ≡ text "www.frp.io"
unfolding http_proxy
row_of_http = refl

http_proxy_injective_example : ◌≡◌ {A = String} "www" "www"
http_proxy_injective_example =
    http_proxy_injective (stats_of "www") (stats_of "www") (conf_of "www") (conf_of "www") "www"
      "www" "frp.io" (num (pos 80)) refl refl refl refl refl

abbrev two_answers : Page PortProxy
two_answers =
    (on_proxies tcp_proxy rejected
      (fetch_data (on_proxies tcp_proxy (body (some (stats_of "ssh" ∷ []))) created).0)).0

two_answers-Run : Run tcp_proxy 1 (rejected ∷ body (some (stats_of "ssh" ∷ [])) ∷ []) two_answers
unfolding fetch_data on_proxies
two_answers-Run =
    answer rejected (omega arith)
      (navigate (answer (body (some (stats_of "ssh" ∷ []))) (omega arith) start))

Run_lem_example :
    (two_answers.proxies ≡ map tcp_proxy (stats_of "ssh" ∷ []))
    × (2 + two_answers.in_flight ≡ 1 + 1)
Run_lem_example = Run_lem tcp_proxy two_answers-Run

abbrev info_with : Option ℤ → ServerInfo
info_with port = record {
  version = text "0.43.0";
  bind_port = num (pos 7000);
  bind_udp_port = some (pos 0);
  vhost_http_port = port;
  vhost_https_port = some (pos 0);
  subdomain_host = text "frp.io";
  max_pool_count = num (pos 5);
  max_ports_per_client = some (pos 0);
  heart_beat_timeout = num (pos 90);
  client_counts = num (pos 1);
  cur_conns = num (pos 1);
  proxy_type_count = some counts;
  total_traffic_in = pos 10;
  total_traffic_out = pos 20;
}

abbrev port_of : ServerInfo → Option ℤ
port_of json = json.vhost_http_port

abbrev one_row : VhostPage HttpProxy
one_row =
    (on_list http_proxy (body (some (stats_of "www" ∷ [])))
      (on_info port_of (body (info_with (some (pos 80)))) vhost_created).0).0

one_row-CalmRun : Calm.CalmRun port_of http_proxy one_row
unfolding on_info on_list
one_row-CalmRun =
    Calm.list (body (some (stats_of "www" ∷ []))) (omega arith)
      (Calm.info (body (info_with (some (pos 80)))) (omega arith) Calm.start)

abbrev HasPort : HttpProxy → Type 0
HasPort row = Calm.IsPort row.port

http_proxy-HasPort :
    (s : ProxyStats) (port host : Field) → Calm.IsPort port → HasPort (http_proxy s port host)
unfolding http_proxy
http_proxy-HasPort s port host h = h

CalmRun-All_example : All HasPort one_row.proxies
CalmRun-All_example = Calm.CalmRun-All port_of http_proxy HasPort http_proxy-HasPort one_row-CalmRun

overlap_example :
    ((Calm.after_two port_of http_proxy
        (info_with (some (pos 80)))
        (info_with (some (pos 0)))
        vhost_created).lists
      ≡ 0 + 1)
    × ((on_list http_proxy (body (some (stats_of "www" ∷ []))) (
          Calm.after_two port_of http_proxy
            (info_with (some (pos 80)))
            (info_with (some (pos 0)))
            vhost_created)).0.proxies
        ≡ map (λ s. http_proxy s (num (pos 0)) (text "frp.io")) (stats_of "www" ∷ []))
overlap_example =
    Calm.overlap port_of http_proxy (info_with (some (pos 80))) (info_with (some (pos 0))) (pos 80)
      (stats_of "www" ∷ []) vhost_created refl refl refl
