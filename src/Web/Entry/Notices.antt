-- ===== src/Web/Entry/Notices.antt =====
-- The notices of the Overview page of frps, with what main.js sets on the prototype.
use frp.Prelude.{◌≡◌, refl, ap, List, [], ◌∷◌, Option, none, some}
use frp.Web.Chart.{TypeCounts, traffic_chart}
use frp.Web.Json.{Reply, body, rejected}
use frp.Web.Overview.{ServerInfo, Overview, Effect, draw, warn, draw_proxies, on_server_info}
use frp.Web.Entry.{frps_globals, frpc_globals, take_place}

-- The effects but the notices.
abbrev pub drawings : List Effect → List Effect
drawings [] = []
drawings (draw id pie ∷ es) = draw id pie ∷ drawings es
drawings (warn text ∷ es) = drawings es

draw_proxies-notices :
    (counts : Option TypeCounts)
    → (take_place frps_globals (draw_proxies counts ∷ []) ≡ drawings (draw_proxies counts ∷ []))
      × (take_place frpc_globals (draw_proxies counts ∷ []) ≡ draw_proxies counts ∷ [])
unfolding draw_proxies take_place
draw_proxies-notices none = (refl, refl)
draw_proxies-notices (some counts) = (refl, refl)

-- Whatever the reply to api/serverinfo, a page with the prototype of frps draws all its charts and shows no
-- notice, although the handler of a failed request asks for one; with the prototype of frpc the same
-- page shows every notice that it asks for.
pub on_server_info-notices :
    (reply : Reply ServerInfo) (page : Overview)
    → (take_place frps_globals (on_server_info reply page).1
        ≡ drawings (on_server_info reply page).1)
      × (take_place frpc_globals (on_server_info reply page).1 ≡ (on_server_info reply page).1)
unfolding on_server_info take_place
on_server_info-notices rejected page = (refl, refl)
on_server_info-notices (body json) page =
    let first = draw "traffic" (traffic_chart json.total_traffic_in json.total_traffic_out) in
    let (unset, set) = draw_proxies-notices json.proxy_type_count in
    (ap (λ es. first ∷ es) unset, ap (λ es. first ∷ es) set)
