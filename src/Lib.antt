-- ===== src/Lib.antt =====
-- Prism Pipe: an AI gateway in TypeScript. A request comes in through Express, is authenticated and
-- rate-limited, runs through a pipeline of middleware, and is sent to a model provider, either one
-- with fallbacks or several in a composition. This library models the parts that decide what happens
-- to a request; each of them is a module, with a child module for what is proved of it.
--
-- - Prelude: shared tests, lists, and the insertion-ordered Map of JavaScript with its laws.
-- - Core (src/core): Errors and Canonical are types.ts; Timeout is timeout.ts, a budget as its start
--   and length, with the time of each call an argument; Pipeline is pipeline.ts, `dispatch` and
--   `execute`. A middleware is code outside the engine, a script that may read and write the context,
--   call `next()` any number of times, see what came of it, throw or return.
-- - Breaker (src/fallback/circuit-breaker.ts): the class as a record, each method a function of the
--   time; Registry is CircuitBreakerRegistry, one breaker for each name.
-- - Fallback (src/fallback/chain.ts): `executeFallbackChain`, with its loops over providers and
--   attempts, the breaker registry, the timeout budget and the pauses; Retry is retry.ts, the
--   `retryWithBackoff` of a single function, with its delays.
-- - Store (src/store): Interface is the rate-limit half of interface.ts as a record of operations and
--   laws, Memory the implementation of memory.ts that fills it, Logs the request log of memory.ts.
-- - RateLimit (src/rate-limit/token-bucket.ts and src/server/rate-limit.ts): the token bucket over any
--   store of that interface, and the Express middleware in front of it.
-- - Compose (src/compose, src/core/composer.ts): Chain is chain.ts, whose steps share the budget and
--   feed each other; Template is template.ts, the references in a step's input; ToolRouter is
--   tool-router.ts, the rounds of tool calls of a primary model.
-- - Plugin (src/plugin/registry.ts): registration with its conflict checks, and the order of the
--   registered middleware.
-- - Auth (src/auth, src/server/auth.ts): Tenant is TenantManager and Costs is TenantCostTracker, both
--   of tenant.ts; Gate is middleware.ts in front of them; Keys is the plain list of API keys of
--   server/auth.ts; Token is the comparison and the reading of headers that they share.
-- - Network (src/network/ip-pool.ts): IpPool, the selection of an address to leave from.
-- - Proxy (src/proxy): Degradation is feature-degradation.ts, the rewriting of a request for a provider
--   that lacks some of its features. Anthropic, OpenAi and Ollama are the files of those names in
--   src/proxy/transforms, which read requests, responses and stream chunks of a provider's format into
--   the canonical one and write them. They share Json, the values that `JSON.parse` gives, with the
--   extras that pass through, Raw, the canonical values as such, and Fields. Usage is
--   usage-grouping.ts, Providers is provider-registry.ts, and RouteTree is `resolveRoutes` of
--   route-tree.ts.
--
-- What the code asks of the outside (a provider, the clock, a local tool handler, `Math.random`,
-- `JSON.stringify`, `JSON.parse`, `String` of what is no text, `path.resolve`, the JWT library, the
-- lower-case form of a text) is an environment or a function that the definitions take as an argument. An environment answers by the history of the run, newest event
-- first, so that a provider may answer the same request differently each time and time may pass
-- between any two events; theorems hold for every environment, or name what they ask of it, such as a
-- clock that does not go back. Errors that the source throws are values of a result type.
--
-- Numbers of the source that are whole are natural numbers; times are in milliseconds. The token
-- bucket counts in a unit in which its refill per millisecond is whole, and takes the refill rate as a
-- fraction; money is counted in a smallest unit. The rounding of doubles is left out: the refill of a
-- bucket, its reported wait and the pauses before a retry are exact here, where the code may be off by
-- a rounding. The keys that every object has from `Object.prototype` are written out where the code
-- tests `key in result` or reads `tools[name]`. The loops are
-- structural recursions: over the providers and the attempts left, the middleware left, the steps
-- left, the messages, the characters of a text, and the rounds left, `maxRounds` or `maxAttempts` of
-- them at first; none needs further fuel.
--
-- Not modelled: metrics and logs that are only written, the abort signal of a timeout and its timer,
-- HTTP and streams, configuration files and their schema, the command line, the SQLite store, the
-- format of Gemini, the prompt guard, the thinking middleware, the router of ingress requests
-- and the life cycle of the proxy instances.
mod Prelude
pub mod Breaker
pub mod Core
pub mod Fallback
pub mod Store
pub mod RateLimit
pub mod Compose
pub mod Plugin
pub mod Auth
pub mod Network
pub mod Proxy
