-- ===== src/Breaker/History.antt =====
-- Histories of calls on one breaker of src/fallback/circuit-breaker.ts, each at its own clock time.
use prism_pipe.Prelude.{ℕ, suc, ◌≡◌, List, [], ◌∷◌, ◌++◌, if◌then◌else◌, refl}
use prism_pipe.Breaker.{
  CircuitBreaker, get_state, allow_request, record_success, record_failure, reset,
}

pub data Call : Type 0 where
  look allow success failure force : Call

unfoldable pub step : CircuitBreaker → ℕ × Call → CircuitBreaker
step b (now, look) = get_state now b
step b (now, allow) = (allow_request now b).0
step b (now, success) = record_success now b
step b (now, failure) = record_failure now b
step b (now, force) = reset now b

unfoldable pub run : CircuitBreaker → List (ℕ × Call) → CircuitBreaker
unfolding step
run b [] = b
run b (c ∷ cs) = run (step b c) cs

pub run-append :
    (b : CircuitBreaker) (cs ds : List (ℕ × Call)) → run b (cs ++ ds) ≡ run (run b cs) ds
unfolding run
run-append b [] ds = refl
run-append b (c ∷ cs) ds = run-append (step b c) cs ds

-- How many requests a sequence of `allowRequest` calls lets through.
unfoldable pub admitted : CircuitBreaker → List ℕ → ℕ
admitted b [] = 0
admitted b (now ∷ later) =
    let (b', let_in) = allow_request now b in
    let rest = admitted b' later in if let_in then suc rest else rest

-- The breaker after these calls.
unfoldable pub ask : CircuitBreaker → List ℕ → CircuitBreaker
ask b [] = b
ask b (now ∷ later) = ask (allow_request now b).0 later
