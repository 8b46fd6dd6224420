-- ===== src/Tests/Entries.antt =====
-- The elements of the two dashboards, and their first pages.
use frp.Prelude.{◌≡◌, refl, some, true, map, [], ◌∷◌}
use frp.Web.Json.{rejected}
use frp.Web.Overview.{blank, overview_items, on_server_info}
use frp.Web.Entry.{
  button, form, form_item, popover, table, table_column, tag, input, row, frps_imports, frps_uses,
  frps_globals, frpc_imports, frpc_uses, frpc_globals, frps_app, frpc_app, covers, find_global,
  whole, message, take_place,
}
use frp.Web.Entry.Notices.{drawings, on_server_info-notices}

-- What is registered was imported.
frps_uses_imported : covers frps_imports frps_uses ≡ true
frps_uses_imported = refl

frpc_uses_imported : covers frpc_imports frpc_uses ≡ true
frpc_uses_imported = refl

-- The elements of every template are registered.
frps_app_registered : covers frps_uses frps_app ≡ true
frps_app_registered = refl

frpc_app_registered : covers frpc_uses frpc_app ≡ true
frpc_app_registered = refl

frps_tables_registered :
    covers frps_uses (table ∷ table_column ∷ popover ∷ button ∷ form ∷ form_item ∷ tag ∷ []) ≡ true
frps_tables_registered = refl

frpc_configure_registered : covers frpc_uses (row ∷ button ∷ input ∷ []) ≡ true
frpc_configure_registered = refl

frpc_message : find_global frpc_globals "$message" ≡ some (whole message)
frpc_message = refl

first_labels :
    map (λ c. c.label) (overview_items blank)
    ≡ "Version" ∷ "BindPort" ∷ "BindUdpPort" ∷ "Http Port" ∷ "Https Port" ∷ "Subdomain Host"
      ∷ "Max PoolCount" ∷ "Max Ports Per Client" ∷ "HeartBeat Timeout" ∷ "Client Counts"
      ∷ "Current Connections" ∷ "Proxy Counts" ∷ []
unfolding overview_items
first_labels = refl

on_server_info-notices_example :
    (take_place frps_globals (on_server_info rejected blank).1
      ≡ drawings (on_server_info rejected blank).1)
    × (take_place frpc_globals (on_server_info rejected blank).1
        ≡ (on_server_info rejected blank).1)
on_server_info-notices_example = on_server_info-notices rejected blank
