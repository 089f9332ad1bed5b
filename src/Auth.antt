-- ===== src/Auth.antt =====
-- The authentication of src/auth and src/server/auth.ts.
pub mod Token
pub mod Keys
pub mod Costs
pub mod Tenant
pub mod Gate
mod Tests
