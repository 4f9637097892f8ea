-- ===== src/Proxy.antt =====
-- The two proxies of tpproxy/mpproxy_client.cc and tpproxy/mpproxy_server.cc: what they add to
-- connections and servers.
pub mod Registry
pub mod Meta
pub mod Paths
