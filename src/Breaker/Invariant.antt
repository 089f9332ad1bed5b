-- ===== src/Breaker/Invariant.antt =====
-- What holds of a breaker between two calls of src/fallback/circuit-breaker.ts.
use prism_pipe.Prelude.{ℕ, ◌≡◌, ◌<◌, ◌≤◌, List, [], ◌∷◌, ◌⊎◌, arith, String, get_or}
use prism_pipe.Breaker.{
  CircuitBreaker, CircuitBreakerOptions, closed, half_open, new, get_state, allow_request,
  record_success, record_failure, reset,
}
use prism_pipe.Breaker.History.{Call, look, allow, success, failure, force, step, run}

pub record IsValid (b : CircuitBreaker) : Type 0 where
  pub threshold_pos : 0 < b.failure_threshold
  pub requests_pos : 0 < b.half_open_requests
  pub below_threshold : b.state ≡ closed → b.consecutive_failures < b.failure_threshold
  pub idle_attempts : (b.state ≡ half_open) ⊎ (b.half_open_attempts ≡ 0)
  pub idle_successes : (b.state ≡ half_open) ⊎ (b.half_open_successes ≡ 0)
  pub attempts_bounded : b.half_open_attempts ≤ b.half_open_requests
  pub successes_bounded : b.half_open_successes < b.half_open_requests

pub new-IsValid :
    (provider : String) (opts : CircuitBreakerOptions)
    → 0 < get_or opts.failure_threshold 5
    → 0 < get_or opts.half_open_requests 1
    → IsValid (new provider opts)
unfolding new
new-IsValid provider opts h k = ground arith

pub step-IsValid : (b : CircuitBreaker) (c : ℕ × Call) → IsValid b → IsValid (step b c)
unfolding step get_state allow_request record_success record_failure reset
step-IsValid b (now, look) v = ground arith
step-IsValid b (now, allow) v = ground arith
step-IsValid b (now, success) v = ground arith
step-IsValid b (now, failure) v = ground arith
step-IsValid b (now, force) v = ground arith

pub run_lem : (b : CircuitBreaker) (cs : List (ℕ × Call)) → IsValid b → IsValid (run b cs)
unfolding run
run_lem b [] v = v
run_lem b (c ∷ cs) v = run_lem (step b c) cs (step-IsValid b c v)

-- Whatever calls a new breaker with a positive threshold and a positive number of test requests
-- receives, at whatever times: a closed breaker has counted fewer failures than the threshold, the
-- half-open counters are 0 outside the half-open state, at most `halfOpenRequests` test requests
-- are out, and fewer successes than that are counted.
pub run-IsValid :
    (provider : String) (opts : CircuitBreakerOptions) (cs : List (ℕ × Call))
    → 0 < get_or opts.failure_threshold 5
    → 0 < get_or opts.half_open_requests 1
    → IsValid (run (new provider opts) cs)
run-IsValid provider opts cs h k = run_lem _ cs (new-IsValid provider opts h k)
