-- ===== src/Network.antt =====
-- src/network: which address a request leaves from.
pub mod IpPool
