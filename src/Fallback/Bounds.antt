-- ===== src/Fallback/Bounds.antt =====
-- How often src/fallback/chain.ts calls the providers, and what ends a run.
use prism_pipe.Prelude.{
  ℕ, zero, suc, ◌+◌, ◌*◌, ◌≡◌, ◌≤◌, List, [], ◌∷◌, String, length, refl, arith,
}
use prism_pipe.Core.Errors.{PipelineError}
use prism_pipe.Fallback.Cases.{timed, attempts_cases, try_providers_cases}
use prism_pipe.Fallback.{
  Event, skipped, succeeded, failed, Env, FallbackChainOptions, Run, log, to_pipeline_error,
  Attempts, done, give_up, ok, err, max_retries_of, check_breaker, breaker_success, note_error,
  back_off, attempts, try_providers, start, finish, execute_fallback_chain,
}

abbrev pub calls : List Event → ℕ
calls [] = 0
calls (succeeded n ∷ h) = suc (calls h)
calls (failed n e ∷ h) = suc (calls h)
calls (e ∷ h) = calls h

abbrev pub successes : List Event → ℕ
successes [] = 0
successes (succeeded n ∷ h) = suc (successes h)
successes (e ∷ h) = successes h

-- One success at the end of a run that returns, and none in any other.
abbrev pub Counts : {R : Type 0} → Attempts R → ℕ → ℕ → Type 0
Counts (done r) before after = after ≡ suc before
Counts give_up before after = after ≡ before

-- What one call of a loop may do, given how many calls it may make at most.
record Fits {R : Type 0} (most : ℕ) (s : Run) (out : Attempts R × Run) : Type 0 where
  bounded : calls out.1.history ≤ calls s.history + most
  counted : Counts out.0 (successes s.history) (successes out.1.history)

module _ {R : Type 0} where
  Fits-trans :
      (m n k : ℕ) (s t : Run) (out : Attempts R × Run)
      → m + n ≤ k
      → calls t.history ≤ calls s.history + m
      → successes t.history ≡ successes s.history
      → Fits n t out
      → Fits k s out
  Fits-trans m n k s t (done r, u) le h e f = omega arith
  Fits-trans m n k s t (give_up, u) le h e f = omega arith

  Fits-done :
      (most : ℕ) (s : Run) (out : Attempts R × Run) (r : R)
      → out.0 ≡ done r
      → Fits most s out
      → Fits most s (done r, out.1)
  Fits-done most s (done x, u) r e f = record { bounded = f.bounded; counted = f.counted }
  Fits-done most s (give_up, u) r e f = cc

  Fits-give_up :
      (most : ℕ) (s : Run) (out : Attempts R × Run)
      → out.0 ≡ give_up
      → Fits most s out
      → Fits {R = R} most s (give_up, out.1)
  Fits-give_up most s (done x, u) e f = cc
  Fits-give_up most s (give_up, u) e f = f

module _ {R : Type 0} (env : Env R) (opts : FallbackChainOptions) where
  calls-check_breaker :
      (name : String) (s : Run)
      → (calls (check_breaker env opts name s).0.history ≡ calls s.history)
        × (successes (check_breaker env opts name s).0.history ≡ successes s.history)
  unfolding check_breaker
  calls-check_breaker name s = ground arith

  calls-note_error :
      (name : String) (e : PipelineError) (s : Run)
      → (calls (note_error env opts name e s).history ≡ suc (calls s.history))
        × (successes (note_error env opts name e s).history ≡ successes s.history)
  unfolding note_error
  calls-note_error name e s = ground arith

  calls-breaker_success :
      (name : String) (s : Run) → (breaker_success env opts name s).history ≡ s.history
  unfolding breaker_success
  calls-breaker_success name s = ground arith

  calls-back_off :
      (attempt : ℕ) (s : Run)
      → (calls (back_off env opts attempt s).history ≡ calls s.history)
        × (successes (back_off env opts attempt s).history ≡ successes s.history)
  unfolding back_off
  calls-back_off attempt s = (refl, refl)

  attempts-Fits :
      (left attempt : ℕ) (name : String) (s : Run)
      → Fits left s (attempts env opts left attempt name s)
  unfolding attempts
  attempts-Fits zero attempt name s = record { bounded = omega arith; counted = refl }
  attempts-Fits (suc left) attempt name s =
      attempts_cases env opts (Fits (suc left) s) left attempt name s
        (record { bounded = omega arith; counted = refl })
        (λ r _ _.
          ground (arith, calls-breaker_success name (log (succeeded name) (timed env opts s))))
        (λ t _ _ _.
          ground (arith, calls-note_error name (to_pipeline_error name t) (timed env opts s)))
        (λ t noted rested _ _ _ e c.
          Fits-trans 1 left (suc left) s rested _ (omega arith)
            (ground (
              arith,
              calls-note_error name (to_pipeline_error name t) (timed env opts s),
              calls-back_off attempt noted,
            ))
            (ground (
              arith,
              calls-note_error name (to_pipeline_error name t) (timed env opts s),
              calls-back_off attempt noted,
            ))
            (attempts-Fits left (attempt + 1) name rested))

  try_providers-Fits :
      (names : List String) (s : Run)
      → Fits (length names * (max_retries_of env opts + 1)) s (try_providers env opts names s)
  unfolding try_providers
  try_providers-Fits [] s = record { bounded = omega arith; counted = refl }
  try_providers-Fits (name ∷ names) s =
      try_providers_cases env opts (Fits (length (name ∷ names) * round) s) name names s
        (λ _. record { bounded = omega arith; counted = refl })
        (λ _ _.
          let asked = check_breaker env opts name (timed env opts s) in
          let quiet = calls-check_breaker name (timed env opts s) in
          Fits-trans 0 (length names * round) (length (name ∷ names) * round) s
            (log (skipped name) asked.0) _ (grind arith) (omega (arith, quiet))
            (omega (arith, quiet)) (try_providers-Fits names (log (skipped name) asked.0)))
        (λ r _ _ e. Fits-done _ s _ r e (tried (length (name ∷ names) * round) (grind arith)))
        (λ _ _ e.
          let fits = Fits-give_up round s _ e (tried round (omega arith)) in
          Fits-trans round (length names * round) (length (name ∷ names) * round) s _ _
            (grind arith) fits.bounded fits.counted (try_providers-Fits names _))
    where
      round : ℕ
      round = max_retries_of env opts + 1

      tried :
          (most : ℕ)
          → round ≤ most
          → Fits most s
              (attempts env opts round 0 name (check_breaker env opts name (timed env opts s)).0)
      tried most le =
          let quiet = calls-check_breaker name (timed env opts s) in
          Fits-trans 0 round most s (check_breaker env opts name (timed env opts s)).0 _
            (omega arith) (omega (arith, quiet)) (omega (arith, quiet))
            (attempts-Fits round 0 name (check_breaker env opts name (timed env opts s)).0)

finish_bounds :
    {R : Type 0} (most : ℕ) (s : Run) (out : Attempts R × Run)
    → calls s.history ≡ 0
    → successes s.history ≡ 0
    → Fits most s out
    → (calls (finish out).1.history ≤ most)
      × ((r : R) → (finish out).0 ≡ ok r → successes (finish out).1.history ≡ 1)
      × ((e : PipelineError) → (finish out).0 ≡ err e → successes (finish out).1.history ≡ 0)
unfolding finish
finish_bounds most s (done r, u) h k f =
    (omega (arith, f.bounded), λ x e. omega (arith, f.counted), λ x e. cc)
finish_bounds most s (give_up, u) h k f =
    (omega (arith, f.bounded), λ x e. cc, λ x e. omega (arith, f.counted))

-- A run makes at most `maxRetries + 1` calls for each provider of the list. It makes exactly one
-- successful call if it returns a result, and none if it throws.
pub execute_bounds :
    {R : Type 0} (env : Env R) (opts : FallbackChainOptions)
    → (calls (execute_fallback_chain env opts).1.history
        ≤ length opts.providers * (max_retries_of env opts + 1))
      × ((r : R)
          → (execute_fallback_chain env opts).0 ≡ ok r
          → successes (execute_fallback_chain env opts).1.history ≡ 1)
      × ((e : PipelineError)
          → (execute_fallback_chain env opts).0 ≡ err e
          → successes (execute_fallback_chain env opts).1.history ≡ 0)
unfolding execute_fallback_chain
execute_bounds env opts =
    finish_bounds _ (start env opts) (try_providers env opts opts.providers (start env opts)) refl
      refl (try_providers-Fits env opts opts.providers (start env opts))
