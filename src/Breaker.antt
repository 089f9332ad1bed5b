-- ===== src/Breaker.antt =====
-- src/fallback/circuit-breaker.ts: the per-provider breaker.
pub mod History
pub mod Invariant
pub mod Trips
pub mod Probes
pub mod Registry
mod Tests
use prism_pipe.Prelude.{
  ℕ, ◌+◌, Bool, true, false, Option, String, ltb, leb, if◌then◌else◌, get_or, ◌&&◌,
}

pub data CircuitState : Type 0 where
  closed opened half_open : CircuitState

-- The options of a breaker; the optional metrics emitter is left out.
pub record CircuitBreakerOptions : Type 0 where
  pub failure_threshold : Option ℕ
  pub reset_timeout_ms : Option ℕ
  pub half_open_requests : Option ℕ

pub record CircuitBreaker : Type 0 where
  pub provider : String
  pub state : CircuitState
  pub consecutive_failures : ℕ
  pub half_open_successes : ℕ
  pub half_open_attempts : ℕ
  pub opened_at : ℕ
  pub failure_threshold : ℕ
  pub reset_timeout_ms : ℕ
  pub half_open_requests : ℕ

-- `constructor`
unfoldable pub new : String → CircuitBreakerOptions → CircuitBreaker
new provider opts = record {
  provider = provider;
  state = closed;
  consecutive_failures = 0;
  half_open_successes = 0;
  half_open_attempts = 0;
  opened_at = 0;
  failure_threshold = get_or opts.failure_threshold 5;
  reset_timeout_ms = get_or opts.reset_timeout_ms 30000;
  half_open_requests = get_or opts.half_open_requests 1;
}

-- `old === newState`
abbrev pub same_state : CircuitState → CircuitState → Bool
same_state closed closed = true
same_state opened opened = true
same_state half_open half_open = true
same_state _ _ = false

-- The assignments of `transitionTo` behind its early return; `now` is `Date.now()`.
abbrev enter : CircuitState → ℕ → CircuitBreaker → CircuitBreaker
enter opened now b = record b {
  state = opened;
  opened_at = now;
  half_open_successes = 0;
  half_open_attempts = 0;
}
enter closed now b = record b {
  state = closed;
  consecutive_failures = 0;
  half_open_successes = 0;
  half_open_attempts = 0;
}
enter half_open now b = record b {
  state = half_open;
  half_open_successes = 0;
  half_open_attempts = 0;
}

unfoldable pub transition_to : CircuitState → ℕ → CircuitBreaker → CircuitBreaker
transition_to new_state now b = if same_state b.state new_state then b else enter new_state now b

-- `getState`: the breaker after the call, whose `state` field is the value returned. A clock that
-- was set back gives a negative `Date.now() - openedAt`, which is below any timeout.
unfoldable pub get_state : ℕ → CircuitBreaker → CircuitBreaker
unfolding transition_to
get_state now b =
    if same_state b.state opened && leb (b.opened_at + b.reset_timeout_ms) now
    then transition_to half_open now b
    else b

-- The tests of `allowRequest`, on the breaker that `getState` leaves.
abbrev admit : CircuitState → CircuitBreaker → CircuitBreaker × Bool
admit closed b = (b, true)
admit opened b = (b, false)
admit half_open b =
    if ltb b.half_open_attempts b.half_open_requests
    then (record b { half_open_attempts = b.half_open_attempts + 1 }, true)
    else (b, false)

unfoldable pub allow_request : ℕ → CircuitBreaker → CircuitBreaker × Bool
unfolding get_state
allow_request now b = let current = get_state now b in admit current.state current

unfoldable pub record_success : ℕ → CircuitBreaker → CircuitBreaker
unfolding transition_to
record_success now b =
    if same_state b.state half_open
    then (let counted = record b { half_open_successes = b.half_open_successes + 1 } in
        if leb b.half_open_requests counted.half_open_successes
        then transition_to closed now counted
        else counted)
    else record b { consecutive_failures = 0 }

unfoldable pub record_failure : ℕ → CircuitBreaker → CircuitBreaker
unfolding transition_to
record_failure now b =
    if same_state b.state half_open
    then transition_to opened now b
    else (let counted = record b { consecutive_failures = b.consecutive_failures + 1 } in
        if leb b.failure_threshold counted.consecutive_failures
        then transition_to opened now counted
        else counted)

unfoldable pub reset : ℕ → CircuitBreaker → CircuitBreaker
unfolding transition_to
reset now b = transition_to closed now b
