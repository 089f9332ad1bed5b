-- ===== src/Breaker/Probes.antt =====
-- What the open and half-open states of src/fallback/circuit-breaker.ts let through.
use prism_pipe.Prelude.{ℕ, ◌+◌, ◌≡◌, ◌<◌, ◌≤◌, true, false, List, [], ◌∷◌, ◌↔◌, refl, arith}
use prism_pipe.Breaker.{
  CircuitBreaker, closed, opened, half_open, allow_request, record_success, record_failure,
}
use prism_pipe.Breaker.Invariant.{IsValid}
use prism_pipe.Breaker.History.{admitted, ask}

-- An open breaker lets a request through exactly when the reset timeout has passed since it opened.
-- It is then half-open with this one test request out; before that it does not change.
pub allow_request-opened :
    (b : CircuitBreaker) (now : ℕ)
    → b.state ≡ opened
    → 0 < b.half_open_requests
    → (((allow_request now b).1 ≡ true) ↔ (b.opened_at + b.reset_timeout_ms ≤ now))
      × (((allow_request now b).1 ≡ false) → (allow_request now b).0 ≡ b)
      × (((allow_request now b).1 ≡ true)
          → ((allow_request now b).0.state ≡ half_open)
            × ((allow_request now b).0.half_open_attempts ≡ 1))
unfolding allow_request
allow_request-opened b now o h =
    ((ground arith, ground arith), ground arith, λ e. (ground arith, ground arith))

half_open_budget :
    (b : CircuitBreaker) (times : List ℕ)
    → b.state ≡ half_open
    → b.half_open_attempts ≤ b.half_open_requests
    → admitted b times + b.half_open_attempts ≤ b.half_open_requests
unfolding admitted allow_request
half_open_budget b [] s le = omega arith
half_open_budget b (now ∷ later) s le =
    ground (arith, half_open_budget (allow_request now b).0 later)

-- However often and whenever requests ask an open breaker with no outcome recorded in between, at
-- most `halfOpenRequests` of them are let through.
pub admitted-le :
    (b : CircuitBreaker) (times : List ℕ)
    → b.state ≡ opened
    → admitted b times ≤ b.half_open_requests
unfolding admitted allow_request
admitted-le b [] o = omega arith
admitted-le b (now ∷ later) o =
    ground (arith, admitted-le b later, half_open_budget (allow_request now b).0 later)

-- A half-open breaker whose test requests are all out, with no outcome recorded, rejects every
-- request at every later time and does not change: no timeout leads out of this state.
pub half_open_stuck :
    (b : CircuitBreaker) (times : List ℕ)
    → b.state ≡ half_open
    → b.half_open_attempts ≡ b.half_open_requests
    → (admitted b times ≡ 0) × (ask b times ≡ b)
unfolding admitted ask allow_request
half_open_stuck b [] s e = (refl, refl)
half_open_stuck b (now ∷ later) s e = ground (arith, half_open_stuck b later)

-- From the half-open state: a failure opens the breaker again at the time of the failure, and
-- successes close it, with the failure count at 0, exactly when `halfOpenRequests` are reached.
pub half_open_outcome :
    (b : CircuitBreaker) (now : ℕ)
    → IsValid b
    → b.state ≡ half_open
    → ((record_failure now b).state ≡ opened)
      × ((record_failure now b).opened_at ≡ now)
      × (((record_success now b).state ≡ closed)
          ↔ (b.half_open_successes + 1 ≡ b.half_open_requests))
      × (((record_success now b).state ≡ closed) → (record_success now b).consecutive_failures ≡ 0)
unfolding record_failure record_success
half_open_outcome b now v s =
    (ground arith, ground arith, (ground arith, ground arith), ground arith)
