-- ===== src/Proxy.antt =====
-- src/proxy: what happens to a request on its way to a provider.
pub mod Degradation
pub mod Json
pub mod Usage
pub mod Providers
pub mod RouteTree
pub mod Raw
pub mod Fields
pub mod Anthropic
pub mod OpenAi
pub mod Ollama
