-- ===== src/Proxy.antt =====
-- pkg/mysqlproxy: the proxy server's sessions.
pub mod Target
pub mod Session
pub mod Shutdown
mod Runs
