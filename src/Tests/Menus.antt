-- ===== src/Tests/Menus.antt =====
-- The menus of the dashboards lead to their routes.
use frp.Prelude.{◌≡◌, refl, none, some, [], ◌∷◌, ◌++◌, map}
use frp.Web.Routes.{
  proxies_stcp, configure, frps_routes, frpc_routes, frps_menu, frpc_menu, handle_select,
  selectable, find_route,
}

-- Each menu has the paths of the routes in their order, and Help after them.
frps_menu_routes : selectable frps_menu ≡ map (λ r. r.path) frps_routes ++ "" ∷ []
frps_menu_routes = refl

frpc_menu_routes : selectable frpc_menu ≡ map (λ r. r.path) frpc_routes ++ "" ∷ []
frpc_menu_routes = refl

stcp_found : find_route frps_routes "/proxies/stcp" ≡ some proxies_stcp
stcp_found = refl

configure_found : find_route frpc_routes "/configure" ≡ some configure
configure_found = refl

help_opens : handle_select "" ≡ some "https://github.com/fatedier/frp"
unfolding handle_select
help_opens = refl

route_stays : handle_select "/proxies/stcp" ≡ none
unfolding handle_select
route_stays = refl
