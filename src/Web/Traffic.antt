-- ===== src/Web/Traffic.antt =====
-- web/frps/src/components/Traffic.vue: the bar chart of one proxy, from the reply to api/traffic/:name.
use frp.Prelude.{String, ◌⋅◌, List, Option, none, some, ℤ}
use frp.Calendar.{Date}
use frp.Web.Json.{Reply, body, rejected}
use frp.Web.Chart.{Bars, proxy_traffic_chart}

-- The keys that the page reads; `none` is null or missing.
pub record TrafficReply : Type 0 where
  pub traffic_in : Option (List ℤ)
  pub traffic_out : Option (List ℤ)

pub data Shown : Type 0 where
  chart : Bars → Shown
  warning : Shown

-- The URL that is fetched.
unfoldable pub traffic_url : String → String
traffic_url proxy_name = "../api/traffic/" ⋅ proxy_name

-- The arrays are reversed before anything is drawn: null there throws, and `catch` warns.
unfoldable pub draw_traffic : Date → Option (List ℤ) → Option (List ℤ) → Shown
unfolding proxy_traffic_chart
draw_traffic today none traffic_out = warning
draw_traffic today (some traffic_in) none = warning
draw_traffic today (some traffic_in) (some traffic_out) =
    chart (proxy_traffic_chart today traffic_in traffic_out)

-- `fetchData`, from its reply on. A reply that is not JSON, as the 404 of an unknown proxy, is rejected.
unfoldable pub on_traffic : Date → Reply TrafficReply → Shown
unfolding draw_traffic
on_traffic today rejected = warning
on_traffic today (body json) = draw_traffic today json.traffic_in json.traffic_out
