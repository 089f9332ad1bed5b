-- ===== src/Fallback/Leak.antt =====
-- A test request of a half-open breaker that src/fallback/chain.ts takes and never uses.
use prism_pipe.Prelude.{
  ℕ, zero, suc, ◌+◌, ◌≡◌, ◌<◌, ◌≤◌, true, false, List, [], ◌∷◌, String, refl, arith, some, ap, ◌∙◌,
  none, sym, le→ltb,
}
use prism_pipe.Core.Timeout.{TimeoutBudget, has_time}
use prism_pipe.Breaker.{CircuitBreaker, opened, half_open, allow_request}
use prism_pipe.Breaker.History.{admitted}
use prism_pipe.Breaker.Registry.{
  CircuitBreakerRegistry, breaker_of, is_available, breaker_of-update, update,
}
use prism_pipe.Breaker.Probes.{half_open_stuck}
use prism_pipe.Fallback.Cases.{timed, try_providers_cases}
use prism_pipe.Fallback.{
  Attempts, done, clock, Env, FallbackChainOptions, Run, max_retries_of, check_time, check_breaker,
  attempts, try_providers, finish, give_up, start, execute_fallback_chain, err, exhausted,
}

abbrev pub half_open_breaker : CircuitBreaker → CircuitBreaker
half_open_breaker b = record b {
  state = half_open;
  half_open_successes = 0;
  half_open_attempts = 1;
}

allow_request_reset :
    (now : ℕ) (b : CircuitBreaker)
    → b.state ≡ opened
    → 0 < b.half_open_requests
    → b.opened_at + b.reset_timeout_ms ≤ now
    → allow_request now b ≡ (half_open_breaker b, true)
unfolding allow_request
allow_request_reset now b o h le = ground arith

true≢false : ¬ (true ≡ false)
true≢false e = cc

done≢give_up : {R : Type 0} {r : R} → ¬ (done r ≡ give_up)
done≢give_up e = cc

module _ {R : Type 0} (env : Env R) (opts : FallbackChainOptions) where
  attempts_late :
      (left attempt : ℕ) (name : String) (s : Run)
      → opts.budget.deadline_at ≤ env.now s.history
      → ((attempts env opts left attempt name s).0 ≡ give_up)
        × ((attempts env opts left attempt name s).1.breakers ≡ s.breakers)
        × ((attempts env opts left attempt name s).1.errors ≡ s.errors)
  unfolding attempts check_time has_time
  attempts_late zero attempt name s h = (refl, refl, refl)
  attempts_late (suc left) attempt name s h =
      rw (le→ltb (env.now s.history) opts.budget.deadline_at h, attempts) (refl, refl, refl)

  -- The only provider of the list gives up on the run `t` that the breaker's answer leaves.
  try_providers_last :
      (name : String) (s t : Run)
      → env.now s.history < opts.budget.deadline_at
      → check_breaker env opts name (timed env opts s) ≡ (t, true)
      → (attempts env opts (max_retries_of env opts + 1) 0 name t).0 ≡ give_up
      → try_providers env opts (name ∷ []) s
        ≡ (give_up, (attempts env opts (max_retries_of env opts + 1) 0 name t).1)
  unfolding try_providers
  try_providers_last name s t early asked gave =
      let run : Run → Attempts R × Run = attempts env opts (max_retries_of env opts + 1) 0 name in
      try_providers_cases env opts (λ out. out ≡ (give_up, (run t).1)) name [] s
        (λ late. absurd (omega arith))
        (λ _ refused. absurd (true≢false (sym (ap (λ x. x.1) asked) ∙ refused)))
        (λ r _ _ e. absurd (done≢give_up (sym e ∙ ap (λ x. (run x.0).0) asked ∙ gave)))
        (λ _ _ _. ap (λ x. (give_up, (run x.0).1)) asked)

abbrev pub one_provider : String → CircuitBreakerRegistry → TimeoutBudget → FallbackChainOptions
one_provider p r budget = record {
  providers = p ∷ [];
  budget = budget;
  max_retries = none;
  base_backoff_ms = none;
  circuit_breakers = some r;
}

-- The registry and the history after the breaker's answer.
abbrev taken : String → CircuitBreakerRegistry → ℕ → ℕ → Run
taken p r t0 t1 = record {
  history = clock t1 ∷ clock t0 ∷ [];
  breakers = some (update p (half_open_breaker (breaker_of p r)) r);
  errors = [];
}

module _ {R : Type 0} (env : Env R) (p : String) (r : CircuitBreakerRegistry)
    (budget : TimeoutBudget) (t0 t1 : ℕ) where
  check_breaker_reset :
      env.now (clock t0 ∷ []) ≡ t1
      → allow_request t1 (breaker_of p r) ≡ (half_open_breaker (breaker_of p r), true)
      → check_breaker env
          (one_provider p r budget)
          p
          (record { history = clock t0 ∷ []; breakers = some r; errors = [] })
        ≡ (taken p r t0 t1, true)
  unfolding check_breaker is_available
  check_breaker_reset e1 answer = rw (e1, answer)

  leaking_run :
      env.now [] ≡ t0
      → t0 < budget.deadline_at
      → check_breaker env
          (one_provider p r budget)
          p
          (record { history = clock t0 ∷ []; breakers = some r; errors = [] })
        ≡ (taken p r t0 t1, true)
      → budget.deadline_at ≤ env.now (clock t1 ∷ clock t0 ∷ [])
      → ((execute_fallback_chain env (one_provider p r budget)).0 ≡ err (exhausted []))
        × ((execute_fallback_chain env (one_provider p r budget)).1.breakers
            ≡ (taken p r t0 t1).breakers)
  unfolding execute_fallback_chain finish
  leaking_run e0 lt asked late =
      let opts = one_provider p r budget in
      let end = attempts_late env opts (max_retries_of env opts + 1) 0 p (taken p r t0 t1) late in
      let last =
        try_providers_last env opts p (start env opts) (taken p r t0 t1) (rw e0 lt) (rw e0 asked)
          end.0 in
      rw last (ap (λ x. err (exhausted x)) end.2, end.1)

-- One provider, whose open breaker allows one test request, and a run in which the reset timeout
-- has passed but the budget ends between the breaker's answer and the first attempt: the run throws
-- without a call, and from then on the breaker of this provider rejects every request at any time.
pub execute_leak :
    {R : Type 0} (env : Env R) (p : String) (r : CircuitBreakerRegistry) (budget : TimeoutBudget)
    (t0 t1 : ℕ)
    → (breaker_of p r).state ≡ opened
    → (breaker_of p r).half_open_requests ≡ 1
    → env.now [] ≡ t0
    → env.now (clock t0 ∷ []) ≡ t1
    → t0 < budget.deadline_at
    → (breaker_of p r).opened_at + (breaker_of p r).reset_timeout_ms ≤ t1
    → budget.deadline_at ≤ env.now (clock t1 ∷ clock t0 ∷ [])
    → ((execute_fallback_chain env (one_provider p r budget)).0 ≡ err (exhausted []))
      × (r' : CircuitBreakerRegistry) × ((execute_fallback_chain env
            (one_provider p r budget)).1.breakers
          ≡ some r')
      × ((times : List ℕ) → admitted (breaker_of p r') times ≡ 0)
unfolding has_time
execute_leak env p r budget t0 t1 o one e0 e1 lt passed late =
    let b = breaker_of p r in
    let answer = allow_request_reset t1 b o (omega arith) passed in
    let (threw, left) =
      leaking_run env p r budget t0 t1 e0 lt (check_breaker_reset env p r budget t0 t1 e1 answer)
        late in
    (
      threw,
      update p (half_open_breaker b) r,
      left,
      λ times.
          ap (λ x. admitted x times) ((breaker_of-update p p (half_open_breaker b) r).0 refl)
          ∙ (half_open_stuck (half_open_breaker b) times refl (omega arith)).0,
    )
