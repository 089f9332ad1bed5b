-- ===== src/Fallback/Cases.antt =====
-- Case rules for the two loops of src/fallback/chain.ts: a property of the loops' results follows
-- from its instances at each way through one round.
use prism_pipe.Prelude.{
  ℕ, suc, ◌+◌, ◌≡◌, ◌<◌, ◌≤◌, Bool, true, false, List, ◌∷◌, String, ltb, refl, arith, Bool-cases,
  inl, inr, ◌⊎◌,
}
use prism_pipe.Core.Errors.{Thrown}
use prism_pipe.Core.Timeout.{has_time, has_time_iff, has_time-false}
use prism_pipe.Fallback.{
  clock, skipped, succeeded, Answer, returned, threw, Env, FallbackChainOptions, Run, log,
  to_pipeline_error, Attempts, done, give_up, max_retries_of, check_time, check_breaker,
  breaker_success, note_error, back_off, attempts, try_providers,
}

Answer-cases :
    {R : Type 0} (a : Answer R) → ((r : R) × (a ≡ returned r)) ⊎ ((t : Thrown) × (a ≡ threw t))
Answer-cases (returned r) = inl (r, refl)
Answer-cases (threw t) = inr (t, refl)

Attempts-cases : {R : Type 0} (a : Attempts R) → ((r : R) × (a ≡ done r)) ⊎ (a ≡ give_up)
Attempts-cases (done r) = inl (r, refl)
Attempts-cases give_up = inr refl

module _ {R : Type 0} (env : Env R) (opts : FallbackChainOptions) where
  -- The run after `timeout.hasTime()`.
  abbrev pub timed : Run → Run
  timed s = log (clock (env.now s.history)) s

  abbrev pub InTime : Run → Type 0
  InTime s = env.now s.history < opts.budget.deadline_at

  module _ {ℓ} (P : Attempts R × Run → Type ℓ) (left attempt : ℕ) (name : String) (s : Run) where
    pub attempts_cases :
        P (give_up, timed s)
        → ((r : R)
            → InTime s
            → env.call (timed s).history name ≡ returned r
            → P (done r, breaker_success env opts name (log (succeeded name) (timed s))))
        → ((t : Thrown)
            → InTime s
            → env.call (timed s).history name ≡ threw t
            → (to_pipeline_error name t).retryable ≡ false
            → P (give_up, note_error env opts name (to_pipeline_error name t) (timed s)))
        → ((t : Thrown) (noted rested : Run)
            → InTime s
            → env.call (timed s).history name ≡ threw t
            → (to_pipeline_error name t).retryable ≡ true
            → noted ≡ note_error env opts name (to_pipeline_error name t) (timed s)
            → ((left ≡ 0) × (rested ≡ noted))
              ⊎ ((0 < left) × (rested ≡ back_off env opts attempt noted))
            → P (attempts env opts left (attempt + 1) name rested))
        → P (attempts env opts (suc left) attempt name s)
    unfolding attempts check_time
    attempts_cases late good fatal retry =
        elim (Bool-cases (has_time (env.now s.history) opts.budget)) [
          | inr out ↦ rw (out, attempts) late
          | inl on ↦
              let early = (has_time_iff (env.now s.history) opts.budget).0 on in
              elim (Answer-cases (env.call (timed s).history name)) [
                | inl (r, answered) ↦ rw (on, answered, attempts) (good r early answered)
                | inr (t, thrown) ↦ elim (Bool-cases (to_pipeline_error name t).retryable) [
                  | inr stop ↦ rw (on, thrown, stop, attempts) (fatal t early thrown stop)
                  | inl again ↦ elim (Bool-cases (ltb 0 left)) [
                    | inl more ↦
                        rw (on, thrown, again, more, attempts)
                          (retry t _ _ early thrown again refl (inr (ground arith, refl)))
                    | inr last ↦
                        rw (on, thrown, again, last, attempts)
                          (retry t _ _ early thrown again refl (inl (ground arith, refl)))
                  ]
                ]
              ]
        ]

  module _ {ℓ} (P : Attempts R × Run → Type ℓ) (name : String) (names : List String) (s : Run) where
    abbrev asked : Run × Bool
    asked = check_breaker env opts name (timed s)

    abbrev tried : Attempts R × Run
    tried = attempts env opts (max_retries_of env opts + 1) 0 name asked.0

    pub try_providers_cases :
        (opts.budget.deadline_at ≤ env.now s.history → P (give_up, timed s))
        → (InTime s
            → asked.1 ≡ false
            → P (try_providers env opts names (log (skipped name) asked.0)))
        → ((r : R) → InTime s → asked.1 ≡ true → tried.0 ≡ done r → P (done r, tried.1))
        → (InTime s → asked.1 ≡ true → tried.0 ≡ give_up → P (try_providers env opts names tried.1))
        → P (try_providers env opts (name ∷ names) s)
    unfolding try_providers check_time
    try_providers_cases late skip good next =
        elim (Bool-cases (has_time (env.now s.history) opts.budget)) [
          | inr out ↦ rw (out, try_providers) (late (has_time-false _ opts.budget out))
          | inl on ↦
              let early = (has_time_iff (env.now s.history) opts.budget).0 on in
              elim (Bool-cases asked.1) [
                | inr tripped ↦ rw (on, tripped, try_providers) (skip early tripped)
                | inl available ↦ elim (Attempts-cases tried.0) [
                  | inl (r, e) ↦ rw (on, available, e, try_providers) (good r early available e)
                  | inr e ↦ rw (on, available, e, try_providers) (next early available e)
                ]
              ]
        ]
