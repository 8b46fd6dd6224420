-- ===== src/Web.antt =====
-- The two dashboards: frps (web/frps/src) and the admin page of frpc (web/frpc/src).
pub mod Json
pub mod Proxy
pub mod Chart
pub mod Overview
pub mod Pages
pub mod Vhost
pub mod Status
pub mod Configure
pub mod Traffic
pub mod Routes
pub mod Tables
pub mod Entry
pub mod Build
