-- ===== src/Web/Routes.antt =====
-- The routes and menus of the two dashboards: web/frps/src/router/index.js and App.vue, and
-- web/frpc/src/router/index.js and App.vue. What vue-router does with a route is not part of it.
use frp.Prelude.{String, str_eq, List, [], ◌∷◌, ◌++◌, map, Option, none, some, if◌then◌else◌}

-- A component that a router shows.
pub data View : Type 0 where
  overview proxies_tcp proxies_udp proxies_http proxies_https proxies_stcp proxies_sudp configure :
      View

pub record Route : Type 0 where
  pub path : String
  pub name : String
  pub component : View

abbrev pub frps_routes : List Route
frps_routes =
    record { path = "/"; name = "Overview"; component = overview }
    ∷ record { path = "/proxies/tcp"; name = "ProxiesTcp"; component = proxies_tcp }
    ∷ record { path = "/proxies/udp"; name = "ProxiesUdp"; component = proxies_udp }
    ∷ record { path = "/proxies/http"; name = "ProxiesHttp"; component = proxies_http }
    ∷ record { path = "/proxies/https"; name = "ProxiesHttps"; component = proxies_https }
    ∷ record { path = "/proxies/stcp"; name = "ProxiesStcp"; component = proxies_stcp }
    ∷ record { path = "/proxies/sudp"; name = "ProxiesSudp"; component = proxies_sudp }
    ∷ []

abbrev pub frpc_routes : List Route
frpc_routes =
    record { path = "/"; name = "Overview"; component = overview }
    ∷ record { path = "/configure"; name = "Configure"; component = configure }
    ∷ []

-- An entry of a menu has an index and a title; a submenu holds entries.
pub record MenuItem : Type 0 where
  pub index : String
  pub title : String

pub data MenuPart : Type 0 where
  item : MenuItem → MenuPart
  submenu : MenuItem → List MenuItem → MenuPart

abbrev pub frps_menu : List MenuPart
frps_menu =
    item (record { index = "/"; title = "Overview" })
    ∷ submenu (record { index = "/proxies"; title = "Proxies" })
        (record { index = "/proxies/tcp"; title = "TCP" }
          ∷ record { index = "/proxies/udp"; title = "UDP" }
          ∷ record { index = "/proxies/http"; title = "HTTP" }
          ∷ record { index = "/proxies/https"; title = "HTTPS" }
          ∷ record { index = "/proxies/stcp"; title = "STCP" }
          ∷ record { index = "/proxies/sudp"; title = "SUDP" }
          ∷ [])
    ∷ item (record { index = ""; title = "Help" })
    ∷ []

abbrev pub frpc_menu : List MenuPart
frpc_menu =
    item (record { index = "/"; title = "Overview" })
    ∷ item (record { index = "/configure"; title = "Configure" })
    ∷ item (record { index = ""; title = "Help" })
    ∷ []

-- `handleSelect` of both: the address of the window that is opened, if one is.
unfoldable pub handle_select : String → Option String
handle_select key = if str_eq key "" then some "https://github.com/fatedier/frp" else none

-- The indices that a menu can select: those of its entries, not those of its submenus.
abbrev pub selectable : List MenuPart → List String
selectable [] = []
selectable (item i ∷ parts) = i.index ∷ selectable parts
selectable (submenu s items ∷ parts) = map (λ i. i.index) items ++ selectable parts

-- The path of the first route for the index, if there is one.
abbrev pub find_route : List Route → String → Option View
find_route [] key = none
find_route (r ∷ routes) key = if str_eq r.path key then some r.component else find_route routes key
