-- ===== src/Client.antt =====
-- frpc's proxies: client/proxy.
pub mod Wrapper
pub mod Manager
