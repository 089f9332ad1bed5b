-- ===== src/Fallback/Errors.antt =====
-- Which error src/fallback/chain.ts throws when no provider answers.
use prism_pipe.Prelude.{◌≡◌, false, List, [], ◌∷◌, ◌++◌, String, refl, arith, last?}
use prism_pipe.Core.Errors.{PipelineError}
use prism_pipe.Fallback.{
  Event, failed, Env, FallbackChainOptions, Run, Attempts, done, give_up, err, last_code,
  last_status, exhausted, check_breaker, breaker_success, note_error, back_off, try_providers,
  finish, start, execute_fallback_chain,
}
use prism_pipe.Fallback.Keeps.{Keeps, execute-Keeps}

-- The failed calls of a history, oldest first.
abbrev pub failures : List Event → List (String × PipelineError)
failures [] = []
failures (failed name e ∷ h) = failures h ++ (name, e) ∷ []
failures (e ∷ h) = failures h

abbrev Recorded : Run → Type 0
Recorded s = s.errors ≡ failures s.history

module _ {R : Type 0} (env : Env R) (opts : FallbackChainOptions) where
  Recorded-Keeps : Keeps env opts Recorded (λ name. Unit {0})
  unfolding breaker_success note_error back_off check_breaker
  Recorded-Keeps = record {
    time = λ s p. p;
    success = λ s name _ _ p. ground arith;
    failure = λ s name t _ _ _ p. ground arith;
    rest = λ s attempt p. p;
    ask = λ s name p. ground arith;
    let_in = λ s name p e. tt;
    skip = λ s name p. p;
  }

  finish_error :
      (out : Attempts R × Run) (e : PipelineError)
      → (finish out).0 ≡ err e
      → e ≡ exhausted (finish out).1.errors
  unfolding finish
  finish_error (done r, s) e h = cc
  finish_error (give_up, s) e h = cc

-- The error that a run throws has the class and the status of the last failed call of the run, or
-- `server_error` and 502 if there was no call, and it is never retryable.
pub execute_error :
    {R : Type 0} (env : Env R) (opts : FallbackChainOptions) (e : PipelineError)
    → (execute_fallback_chain env opts).0 ≡ err e
    → (e.code ≡ last_code (last? (failures (execute_fallback_chain env opts).1.history)))
      × (e.status_code ≡ last_status (last? (failures (execute_fallback_chain env opts).1.history)))
      × (e.retryable ≡ false)
unfolding execute_fallback_chain
execute_error env opts e h =
    let recorded = execute-Keeps env opts (Recorded-Keeps env opts) refl in
    let same = finish_error env opts (try_providers env opts opts.providers (start env opts)) e h in
    rw (← recorded, same) (refl, refl, refl)
