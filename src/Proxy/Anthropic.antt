-- ===== src/Proxy/Anthropic.antt =====
-- src/proxy/transforms/anthropic.ts: the transform between the Anthropic format and the canonical
-- one. A result is `none` where the code throws a TypeError or goes on with a value outside its types.
pub mod Request
pub mod Messages
pub mod RequestTrip
pub mod Response
pub mod ResponseTrip
pub mod Stream
mod Tests
