-- ===== src/Lib.antt =====
-- frp: the dashboards of frps and frpc, the statistics behind them, the logins, plugins, controls,
-- visitors, ports, groups and virtual hosts of frps, and the proxies and health checks of frpc.
--
-- frps is a reverse proxy server and frpc its client. frps counts connections and traffic
-- (pkg/metrics/mem, with the counters of pkg/util/metric), hands out the public ports of proxies
-- (server/ports) to proxies and groups of proxies (server/group), lets clients log in
-- (server/service.go, with the plugins of pkg/plugin/server, pkg/auth and pkg/util/version), keeps
-- the proxies and work connections of each client (server/control.go), lets visitors with a secret
-- reach private proxies (server/visitor), finds the proxy that serves a virtual host
-- (pkg/util/vhost), and its dashboard (web/frps/src) asks for the counts over a JSON API
-- (server/dashboard_api.go) and draws them. frpc keeps each proxy registered (client/proxy), checks
-- its local services (client/health) and has an admin page (web/frpc/src) that shows its proxies
-- and edits its configuration over client/admin_api.go.
--
-- Which file models which part:
--   Prelude: shared names, tests on numbers, lists, integers, texts, series of daily values.
--   Calendar: JavaScript's Date as the charts use it. Calendar/Laws: its counting of days.
--   Web/Json: the JavaScript values and coercions that the pages use.
--   Web/Proxy: web/frps/src/utils/proxy.js, the rows of the proxy tables.
--   Web/Chart: web/frps/src/utils/chart.js. Web/Chart/Pies, Web/Chart/Week: its charts' laws.
--   Web/Overview: web/frps/src/components/Overview.vue.
--   Web/Pages: ProxiesTcp.vue, ProxiesUdp.vue, ProxiesStcp.vue and ProxiesSudp.vue there, as state
--     machines. Web/Pages/Runs: their runs.
--   Web/Vhost: ProxiesHttp.vue and ProxiesHttps.vue there. Web/Vhost/Calm: their runs.
--   Web/Tables: the templates of these six. Web/Tables/Closed: their rows of closed proxies.
--   Web/Traffic: Traffic.vue there.
--   Web/Routes: the routers and menus of both, router/index.js and App.vue.
--   Web/Entry: main.js of both. Web/Entry/Notices: whether a notice is shown.
--   Web/Build: the builds of both. Web/Build/Text: the regular expressions in it. Web/Build/Frps and
--     Web/Build/Frpc: web/frps/webpack.config.js and web/frpc/webpack.config.js, and the postcss.config.js
--     beside them. Web/Build/Endings, Web/Build/Matched and Web/Build/Rules: which rules apply to a file.
--   Web/Status: web/frpc/src/components/Overview.vue and web/frpc/src/utils/status.js.
--   Web/Configure: web/frpc/src/components/Configure.vue.
--   Metric/Counter: pkg/util/metric/counter.go.
--   Metric/DateCounter: pkg/util/metric/date_counter.go. Its children Ledger, Totals and ShortDay
--     hold what it keeps, what it reports, and what a day of 23 hours does to it.
--   Statistics: pkg/metrics/mem/server.go, the counts of proxies. Statistics/Report: its reports.
--     Statistics/Run: its calls in any order. Statistics/Counted, Statistics/Tracks and
--     Statistics/Invariant: what the calls keep of one proxy. Statistics/Traffic: what is reported
--     of it. Statistics/Clearing: when its entry is removed. Statistics/Open and Statistics/Kept:
--     that it is not while the proxy is open. Statistics/Untouched and Statistics/Balance: the counts
--     of clients and connections.
--   Dashboard: the replies to api/serverinfo and api/traffic/:name in server/dashboard_api.go.
--     Dashboard/Bars and Dashboard/Counts: from the calls of the statistics to the bars and the counts
--     that the pages show.
--   Ports: server/ports/ports.go, the public ports that proxies acquire. Ports/Consistent: the
--     invariant of its maps. Ports/Acquire: what Acquire answers. Ports/Reuse: reserved ports.
--   Routing: pkg/util/vhost/router.go, and the search for a virtual host in pkg/util/vhost/http.go
--     and pkg/util/vhost/vhost.go. Routing/Order: the order of locations. Routing/Sorted: what a
--     lookup answers. Routing/Search: which host names are tried. Routing/Exact and Routing/Routes: the
--     routers as a map from domain, location and user to a route.
--   Group: server/group/tcp.go, over Ports. Group/Shared: which ports the groups hold. Group/Joins:
--     what a proxy gets of a group, and when the port is given back.
--   HttpGroup: server/group/http.go, over Routing. HttpGroup/Members: the functions of a group by name.
--     HttpGroup/Turns: who serves. HttpGroup/Routes, HttpGroup/Holds and HttpGroup/Steps: which routes
--     the groups have. HttpGroup/Orphans: a registration on a group that has left the table.
--   Plugins: pkg/plugin/server/manager.go. Plugins/Chain: who is asked, and what.
--   Logins: the ControlManager of server/control.go and the logins of server/service.go, over Version,
--     Auth and Plugins. Logins/Listed: which control stands under a run id. Logins/Accepted: which
--     logins pass.
--   WorkConns: the pool of work connections in server/control.go. WorkConns/Order and WorkConns/Queue:
--     what goes in and out. WorkConns/Sizes: its length.
--   Visitors: server/visitor/visitor.go and pkg/util/net/listener.go, with the stcp visitor of
--     client/visitor.go, over Auth. Visitors/Secrets and Visitors/Steps: what waits at a listener.
--     Visitors/Signed: which visitors pass.
--   Control: server/control.go and the Manager of server/proxy/proxy.go. Control/Entries: the proxies
--     of one control. Control/Sound: the invariant of all controls. Control/Limits: what
--     RegisterProxy answers.
--   Auth: pkg/auth/token.go. Auth/Agree: that both sides agree.
--   Ranges: ParseRangeNumbers of pkg/util/util/util.go. Ranges/Loop: when its loop ends. Ranges/Digits,
--     Ranges/Pieces and Ranges/Print: that it reads what is printed.
--   Version: pkg/util/version/version.go. Version/Order: the order of printed versions.
--   Health: client/health/health.go, the monitor of a local service of frpc. Health/Changes: the
--     order of its callbacks. Health/Failures: what its count of failures does.
--   Client/Wrapper: client/proxy/proxy_wrapper.go, the lifecycle of a proxy. Client/Wrapper/Messages:
--     what it tells frps. Client/Wrapper/Starts: that it gets to run. Client/Wrapper/Monitored: its
--     health, over Health.
--   Client/Manager: client/proxy/proxy_manager.go, the proxies by name. Client/Manager/Reloaded,
--     Client/Manager/Told and Client/Manager/Again: what Reload leaves, sends and does when repeated.
--     Client/Manager/Heard, Client/Manager/Steps and Client/Manager/Open: what frps last heard of each
--     name.
--   Tests: runs at concrete inputs.
--
-- A component of the dashboard is a record of its data, and a promise handler is a function from
-- the reply and the data to the new data and what the page makes happen. Requests in flight are
-- counted, so that replies may come in any order. The replies are typed as the Go structs declare
-- them; a key that may be absent or null is an option. JSON numbers are integers, which JavaScript
-- holds exactly up to 2^53. Go's int32 and int64 are bit patterns below 2^32 and 2^64. The clock is
-- an argument, and so is what the operating system says of a port. The decimal print has fuel above
-- the number that it prints, so it does not run out. The loop of ParseRangeNumbers has fuel, of which
-- one more than the length of the longest range is enough.
--
-- Not modelled: what echarts, humanize-plus, Vue, webpack and the browser do; dates before 1970 and
-- years far from the present, time zones but for the length of a day; and the rest of frps and frpc.
pub mod Prelude
pub mod Calendar
pub mod Web
pub mod Metric
pub mod Statistics
pub mod Dashboard
pub mod Ports
pub mod Routing
pub mod Group
pub mod HttpGroup
pub mod Plugins
pub mod Control
pub mod Logins
pub mod WorkConns
pub mod Visitors
pub mod Auth
pub mod Ranges
pub mod Version
pub mod Health
pub mod Client
pub mod Tests
