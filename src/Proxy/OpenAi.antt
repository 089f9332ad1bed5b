-- ===== src/Proxy/OpenAi.antt =====
-- src/proxy/transforms/openai.ts: the transform between the OpenAI format and the canonical one. A
-- result is `none` where the code throws a TypeError or a SyntaxError, or goes on with a value outside
-- its types.
pub mod DataUrl
pub mod Reading
pub mod Sending
pub mod Messages
pub mod Conversation
pub mod RequestTrip
pub mod Lost
pub mod Response
pub mod ResponseTrip
pub mod Stream
pub mod StreamTrip
mod Tests
