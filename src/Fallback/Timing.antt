-- ===== src/Fallback/Timing.antt =====
-- How src/fallback/chain.ts respects the timeout budget.
use prism_pipe.Prelude.{ℕ, ◌-◌, ◌<◌, ◌≤◌, List, [], ◌∷◌, arith}
use prism_pipe.Core.Timeout.{remaining}
use prism_pipe.Fallback.{
  Event, clock, succeeded, failed, slept, Env, FallbackChainOptions, check_breaker, breaker_success,
  note_error, back_off, execute_fallback_chain,
}
use prism_pipe.Fallback.Keeps.{Keeps, execute-Keeps}

-- The clock was read before the deadline `d`, with nothing in between.
abbrev pub Fresh : ℕ → List Event → Type 0
Fresh d (clock t ∷ h) = t < d
Fresh d _ = ⊥

-- The clock has just been read, and a pause of `ms` from then on ends by the deadline `d`, or is 0.
abbrev pub Rests : ℕ → ℕ → List Event → Type 0
Rests d ms (clock t ∷ h) = ms ≤ d - t
Rests d ms _ = ⊥

abbrev pub InBudget : ℕ → List Event → Type 0
InBudget d [] = Unit
InBudget d (succeeded name ∷ h) = Fresh d h × InBudget d h
InBudget d (failed name e ∷ h) = Fresh d h × InBudget d h
InBudget d (slept ms ∷ h) = Rests d ms h × InBudget d h
InBudget d (e ∷ h) = InBudget d h

module _ {R : Type 0} (env : Env R) (opts : FallbackChainOptions) where
  InBudget-Keeps :
      Keeps env opts (λ s. InBudget opts.budget.deadline_at s.history) (λ name. Unit {0})
  unfolding breaker_success note_error back_off check_breaker remaining
  InBudget-Keeps = record {
    time = λ s p. p;
    success = λ s name _ early p. ground arith;
    failure = λ s name t _ early _ p. ground arith;
    rest = λ s attempt p. (omega arith, p);
    ask = λ s name p. ground arith;
    let_in = λ s name p e. tt;
    skip = λ s name p. p;
  }

-- Whatever the clock and the providers do: directly before every call of a provider the clock was
-- read and showed a time before the deadline, and no pause between attempts is longer than the
-- time that was left when it began.
pub execute-InBudget :
    {R : Type 0} (env : Env R) (opts : FallbackChainOptions)
    → InBudget opts.budget.deadline_at (execute_fallback_chain env opts).1.history
execute-InBudget env opts = execute-Keeps env opts (InBudget-Keeps env opts) tt
