-- ===== src/Fallback/Tests.antt =====
-- Runs of src/fallback/chain.ts, and instances of its theorems.
use prism_pipe.Prelude.{
  ℕ, ◌+◌, ◌*◌, ◌≡◌, ◌≤◌, true, false, List, [], ◌∷◌, refl, arith, none, some, length, last?, str_eq,
  if◌then◌else◌, lookup,
}
use prism_pipe.Core.Errors.{PipelineError, pipeline, overloaded}
use prism_pipe.Core.Timeout.{TimeoutBudget, has_time, remaining}
use prism_pipe.Breaker.{CircuitBreaker, opened}
use prism_pipe.Breaker.History.{admitted}
use prism_pipe.Breaker.Registry.{CircuitBreakerRegistry, breaker_of, is_available}
use prism_pipe.Fallback.{
  Event, clock, failed, slept, returned, threw, Env, FallbackChainOptions, ok, err, exhausted,
  last_code, last_status, execute_fallback_chain,
}
use prism_pipe.Fallback.Bounds.{calls, successes, execute_bounds}
use prism_pipe.Fallback.Errors.{failures, execute_error}
use prism_pipe.Fallback.Timing.{InBudget, execute-InBudget}
use prism_pipe.Fallback.Skips.{HasBreaker, NeverCalled, execute_skips}
use prism_pipe.Fallback.Leak.{one_provider, execute_leak}

abbrev busy : PipelineError
busy = record {
  message = "Provider a returned 503: ";
  code = overloaded;
  step = some "a";
  status_code = 503;
  retryable = true;
}

-- Provider "a" is overloaded at every call, "b" answers with 7; every clock reading takes 10 ms.
abbrev flaky : Env ℕ
flaky = record {
  now = λ h. length h * 10;
  call = λ h name. if str_eq name "b" then returned 7 else threw (pipeline busy);
}

abbrev budget : TimeoutBudget
budget = record { total_ms = 5000; started_at = 0; deadline_at = 5000 }

abbrev a_then_b : FallbackChainOptions
a_then_b = record {
  providers = "a" ∷ "b" ∷ [];
  budget = budget;
  max_retries = some 1;
  base_backoff_ms = none;
  circuit_breakers = none;
}

abbrev only_a : FallbackChainOptions
only_a = record a_then_b { providers = "a" ∷ [] }

-- What a test must see through.
chain_runs : Unit {0}
unfolding execute_fallback_chain has_time remaining is_available breaker_of
chain_runs = tt

falls_back : (execute_fallback_chain flaky a_then_b).0 ≡ ok 7
unfolding chain_runs
falls_back = refl

only_a_history :
    (execute_fallback_chain flaky only_a).1.history
    ≡ failed "a" busy ∷ clock 50 ∷ slept 500 ∷ clock 30 ∷ failed "a" busy ∷ clock 10 ∷ clock 0 ∷ []
unfolding chain_runs
only_a_history = refl

only_a_error : (execute_fallback_chain flaky only_a).0 ≡ err (exhausted (("a", busy) ∷ []))
unfolding chain_runs
only_a_error = refl

execute_bounds_example :
    (calls (execute_fallback_chain flaky a_then_b).1.history ≤ 2 * (1 + 1))
    × ((r : ℕ)
        → (execute_fallback_chain flaky a_then_b).0 ≡ ok r
        → successes (execute_fallback_chain flaky a_then_b).1.history ≡ 1)
    × ((e : PipelineError)
        → (execute_fallback_chain flaky a_then_b).0 ≡ err e
        → successes (execute_fallback_chain flaky a_then_b).1.history ≡ 0)
execute_bounds_example = execute_bounds flaky a_then_b

abbrev only_a_end : List Event
only_a_end = (execute_fallback_chain flaky only_a).1.history

execute_error_example :
    ((exhausted (("a", busy) ∷ [])).code ≡ last_code (last? (failures only_a_end)))
    × ((exhausted (("a", busy) ∷ [])).status_code ≡ last_status (last? (failures only_a_end)))
    × ((exhausted (("a", busy) ∷ [])).retryable ≡ false)
execute_error_example = execute_error flaky only_a (exhausted (("a", busy) ∷ [])) only_a_error

execute-InBudget_example : InBudget 5000 (execute_fallback_chain flaky a_then_b).1.history
execute-InBudget_example = execute-InBudget flaky a_then_b

-- A breaker that opened at time 0, under a clock that stands still at 10.
abbrev tripped : CircuitBreaker
tripped = record {
  provider = "a";
  state = opened;
  consecutive_failures = 5;
  half_open_successes = 0;
  half_open_attempts = 0;
  opened_at = 0;
  failure_threshold = 5;
  reset_timeout_ms = 30;
  half_open_requests = 1;
}

abbrev fleet : CircuitBreakerRegistry
fleet = record {
  breakers = ("a", tripped) ∷ [];
  default_opts = record {
    failure_threshold = none;
    reset_timeout_ms = none;
    half_open_requests = none;
  };
}

abbrev frozen : Env ℕ
frozen = record flaky { now = λ h. 10 }

abbrev guarded : FallbackChainOptions
guarded = record a_then_b { circuit_breakers = some fleet }

execute_skips_example :
    HasBreaker "a" tripped (execute_fallback_chain frozen guarded).1.breakers
    × NeverCalled "a" (execute_fallback_chain frozen guarded).1.history
unfolding breaker_of lookup
execute_skips_example = execute_skips frozen guarded "a" tripped refl (λ h. omega arith) refl

abbrev short : TimeoutBudget
short = record { total_ms = 100; started_at = 0; deadline_at = 100 }

-- Each reading of the clock takes 60 ms: the second comes after the reset, the third too late.
abbrev slow : Env ℕ
slow = record flaky { now = λ h. length h * 60 }

execute_leak_example :
    ((execute_fallback_chain slow (one_provider "a" fleet short)).0 ≡ err (exhausted []))
    × (r' : CircuitBreakerRegistry) × ((execute_fallback_chain slow
          (one_provider "a" fleet short)).1.breakers
        ≡ some r')
    × ((times : List ℕ) → admitted (breaker_of "a" r') times ≡ 0)
unfolding breaker_of lookup
execute_leak_example =
    execute_leak slow "a" fleet short 0 60 refl refl refl refl (omega arith) (omega arith)
      (omega arith)
