-- ===== src/Store.antt =====
-- src/store: what the proxy keeps between requests.
pub mod Interface
pub mod Memory
pub mod Logs
