-- ===== src/Core.antt =====
-- src/core: the types and services that the other parts share.
pub mod Errors
pub mod Canonical
pub mod Timeout
pub mod Pipeline
