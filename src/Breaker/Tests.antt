-- ===== src/Breaker/Tests.antt =====
-- Runs of the breaker of src/fallback/circuit-breaker.ts, and instances of its theorems.
use prism_pipe.Prelude.{
  ◌≡◌, ◌≤◌, ◌≢◌, true, false, [], ◌∷◌, refl, arith, String, none, some, ◌↔◌, eq_iff,
}
use prism_pipe.Breaker.{
  CircuitBreaker, CircuitBreakerOptions, closed, opened, half_open, new, allow_request,
  record_success, record_failure,
}
use prism_pipe.Breaker.History.{allow, failure, run, admitted, ask}
use prism_pipe.Breaker.Invariant.{IsValid, run-IsValid}
use prism_pipe.Breaker.Trips.{succeeded, failed, record_all, HasRun, trips_iff}
use prism_pipe.Breaker.Probes.{admitted-le, half_open_stuck}
use prism_pipe.Breaker.Registry.{CircuitBreakerRegistry}

abbrev two_strikes : CircuitBreakerOptions
two_strikes = record {
  failure_threshold = some 2;
  reset_timeout_ms = some 100;
  half_open_requests = none;
}

abbrev tripped : CircuitBreaker
tripped = record {
  provider = "openai";
  state = opened;
  consecutive_failures = 2;
  half_open_successes = 0;
  half_open_attempts = 0;
  opened_at = 20;
  failure_threshold = 2;
  reset_timeout_ms = 100;
  half_open_requests = 1;
}

abbrev probing : CircuitBreaker
probing = record tripped { state = half_open; half_open_attempts = 1 }

life_cycle :
    (run (new "openai" two_strikes) ((10, failure) ∷ (20, failure) ∷ []) ≡ tripped)
    × (allow_request 119 tripped ≡ (tripped, false))
    × (allow_request 120 tripped ≡ (probing, true))
    × ((record_success 130 probing).state ≡ closed)
    × ((record_failure 130 probing).opened_at ≡ 130)
unfolding run new record_failure record_success allow_request
life_cycle = (refl, refl, refl, refl, refl)

run-IsValid_example :
    IsValid (run (new "openai" two_strikes) ((10, failure) ∷ (20, failure) ∷ (130, allow) ∷ []))
run-IsValid_example =
    run-IsValid "openai" two_strikes ((10, failure) ∷ (20, failure) ∷ (130, allow) ∷ [])
      (omega arith) (omega arith)

trips_iff_example :
    ((record_all (new "openai" two_strikes) (failed 10 ∷ failed 20 ∷ succeeded 30 ∷ [])).state
      ≡ opened)
    ↔ HasRun 2 (failed 10 ∷ failed 20 ∷ succeeded 30 ∷ [])
trips_iff_example =
    trips_iff "openai" two_strikes (failed 10 ∷ failed 20 ∷ succeeded 30 ∷ []) (omega arith)

admitted-le_example : admitted tripped (50 ∷ 120 ∷ 130 ∷ 9000 ∷ []) ≤ 1
admitted-le_example = admitted-le tripped (50 ∷ 120 ∷ 130 ∷ 9000 ∷ []) refl

half_open_stuck_example :
    (admitted probing (130 ∷ 1000000 ∷ []) ≡ 0) × (ask probing (130 ∷ 1000000 ∷ []) ≡ probing)
half_open_stuck_example = half_open_stuck probing (130 ∷ 1000000 ∷ []) refl refl

probing-IsValid : IsValid probing
probing-IsValid = ground arith

abbrev fleet : CircuitBreakerRegistry
fleet = record { breakers = ("openai", tripped) ∷ []; default_opts = two_strikes }

abbrev OpenaiNotAnthropic : Type 0
OpenaiNotAnthropic = ◌≢◌ {A = String} "openai" "anthropic"

differ : OpenaiNotAnthropic
differ = ground (arith, eq_iff "openai" "anthropic")
