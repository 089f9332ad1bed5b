-- ===== src/Compose.antt =====
-- src/compose: requests that go through several model calls.
pub mod Chain
pub mod Template
pub mod ToolRouter
