-- ===== src/Fallback/Skips.antt =====
-- How src/fallback/chain.ts uses the circuit breakers.
use prism_pipe.Prelude.{
  ℕ, ◌+◌, ◌≡◌, ◌≢◌, ◌<◌, true, false, List, [], ◌∷◌, String, refl, arith, Option, none, some,
  Bool-cases, inl, inr, eq_iff, str_eq, ap, ◌∙◌, Option-cases,
}
use prism_pipe.Breaker.{CircuitBreaker, opened, allow_request}
use prism_pipe.Breaker.Registry.{
  CircuitBreakerRegistry, breaker_of, is_available, registry_frame, breaker_of-update,
}
use prism_pipe.Fallback.{
  Event, succeeded, failed, Env, FallbackChainOptions, Run, log, to_pipeline_error, check_breaker,
  breaker_success, note_error, back_off, execute_fallback_chain,
}
use prism_pipe.Fallback.Keeps.{Keeps, execute-Keeps}
use prism_pipe.Fallback.Cases.{timed}
use prism_pipe.Core.Errors.{PipelineError}

-- No call of this provider.
abbrev pub NeverCalled : String → List Event → Type 0
NeverCalled p [] = Unit
NeverCalled p (succeeded name ∷ h) = (name ≢ p) × NeverCalled p h
NeverCalled p (failed name e ∷ h) = (name ≢ p) × NeverCalled p h
NeverCalled p (e ∷ h) = NeverCalled p h

-- The registry holds this breaker for this provider.
abbrev pub HasBreaker : String → CircuitBreaker → Option CircuitBreakerRegistry → Type 0
HasBreaker p b none = ⊥
HasBreaker p b (some r) = breaker_of p r ≡ b

module _ (p : String) (b : CircuitBreaker) (tripped : b.state ≡ opened) where
  allow_request_tripped :
      (now : ℕ) → now < b.opened_at + b.reset_timeout_ms → allow_request now b ≡ (b, false)
  unfolding allow_request
  allow_request_tripped now h = ground arith

  ask_tripped_self :
      (now : ℕ) (r : CircuitBreakerRegistry)
      → now < b.opened_at + b.reset_timeout_ms
      → breaker_of p r ≡ b
      → (breaker_of p (is_available now p r).0 ≡ b) × ((is_available now p r).1 ≡ false)
  unfolding is_available
  ask_tripped_self now r h e =
      let answer : allow_request now (breaker_of p r) ≡ (b, false) =
        rw e (allow_request_tripped now h) in
      ((breaker_of-update p p _ r).0 refl ∙ ap (λ x. x.0) answer, ap (λ x. x.1) answer)

  ask_tripped :
      (now : ℕ) (name : String) (r : CircuitBreakerRegistry)
      → now < b.opened_at + b.reset_timeout_ms
      → breaker_of p r ≡ b
      → (breaker_of p (is_available now name r).0 ≡ b)
        × ((is_available now name r).1 ≡ true → name ≢ p)
  ask_tripped now name r h e = elim (Bool-cases (str_eq name p)) [
    | inl same ↦
        let (kept, refused) = ask_tripped_self now r h e in
        rw ((eq_iff name p).0 same) (kept, λ allowed. cc)
    | inr other ↦
        let differ : name ≢ p = λ q. ground (arith, eq_iff name p) in
        ((registry_frame now name p r differ).1 ∙ e, λ _. differ)
  ]

  -- Calls of other providers leave the breaker of `p` as it is.
  abbrev Stays : Run → Type 0
  Stays s = HasBreaker p b s.breakers × NeverCalled p s.history

  module _ {R : Type 0} (env : Env R) (opts : FallbackChainOptions)
      (early : (h : List Event) → env.now h < b.opened_at + b.reset_timeout_ms) where
    Stays-success :
        (s : Run) (name : String)
        → name ≢ p
        → Stays s
        → Stays (breaker_success env opts name (log (succeeded name) s))
    unfolding breaker_success
    Stays-success s name n k = elim (Option-cases s.breakers) [
      | inl e ↦ absurd (ground arith)
      | inr (r, e) ↦
          let frame = (registry_frame (env.now (succeeded name ∷ s.history)) name p r n).3 in
          ground arith
    ]

    Stays-failure :
        (s : Run) (name : String) (e : PipelineError)
        → name ≢ p
        → Stays s
        → Stays (note_error env opts name e s)
    unfolding note_error
    Stays-failure s name x n k = elim (Option-cases s.breakers) [
      | inl e ↦ absurd (ground arith)
      | inr (r, e) ↦
          let frame = (registry_frame (env.now (failed name x ∷ s.history)) name p r n).5 in
          ground arith
    ]

    Stays-ask :
        (s : Run) (name : String)
        → Stays s
        → Stays (check_breaker env opts name s).0
          × ((check_breaker env opts name s).1 ≡ true → name ≢ p)
    unfolding check_breaker
    Stays-ask s name k = elim (Option-cases s.breakers) [
      | inl e ↦ absurd (ground arith)
      | inr (r, e) ↦
          let held : breaker_of p r ≡ b = ground arith in
          let asked = ask_tripped (env.now s.history) name r (early s.history) held in
          rw (e, check_breaker) ((asked.0, k.1), asked.1)
    ]

    Stays-Keeps : Keeps env opts Stays (λ name. name ≢ p)
    unfolding back_off
    Stays-Keeps = record {
      time = λ s k. k;
      success = λ s name n _ k. Stays-success (timed env opts s) name n k;
      failure =
          λ s name t n _ _ k. Stays-failure (timed env opts s) name (to_pipeline_error name t) n k;
      rest = λ s attempt k. k;
      ask = λ s name k. (Stays-ask s name k).0;
      let_in = λ s name k. (Stays-ask s name k).1;
      skip = λ s name k. k;
    }

-- A provider whose breaker is open when the run starts is not called at any point of the run, and
-- its breaker is left as it was, if the clock stays before the end of the reset timeout.
pub execute_skips :
    {R : Type 0} (env : Env R) (opts : FallbackChainOptions) (p : String) (b : CircuitBreaker)
    → b.state ≡ opened
    → ((h : List Event) → env.now h < b.opened_at + b.reset_timeout_ms)
    → HasBreaker p b opts.circuit_breakers
    → HasBreaker p b (execute_fallback_chain env opts).1.breakers
      × NeverCalled p (execute_fallback_chain env opts).1.history
execute_skips env opts p b tripped early held =
    execute-Keeps env opts (Stays-Keeps p b tripped env opts early) (held, tt)
