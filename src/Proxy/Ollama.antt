-- ===== src/Proxy/Ollama.antt =====
-- src/proxy/transforms/ollama.ts: the transform between the Ollama format and the canonical one. Its
-- loops over the messages are those of src/proxy/transforms/openai.ts, text for text, and so are
-- modelled by the same definitions. A result is `none` where the code throws, or goes on with a value
-- outside its types.
pub mod Request
pub mod RequestTrip
pub mod Response
pub mod ResponseTrip
mod Tests
