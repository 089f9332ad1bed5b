-- ===== src/Fallback/Retry/Results.antt =====
-- How many calls a run of src/fallback/retry.ts makes, and how it ends.
use prism_pipe.Prelude.{
  ℕ, zero, suc, ◌+◌, ◌≡◌, refl, sym, ◌∙◌, subst, ◌≤◌, true, false, Option, none, some, List, [],
  ◌∷◌, arith, ap, Bool-cases, inl, inr, ltb,
}
use prism_pipe.Core.Errors.{PipelineError, Thrown}
use prism_pipe.Core.Timeout.{has_time}
use prism_pipe.Fallback.Retry.{
  Fraction, roll, ask_retry_after, Event, clock, returned, raised, drawn, slept, threw, Env,
  RetryOptions, Outcome, ok, err, is_final, budget_exhausted, failed, back_off, try_once, rounds,
  retry_with_backoff,
}
use prism_pipe.Fallback.Retry.Rounds.{
  Runs, Paused, late, done, fatal, spent, no_pause, again, retry_with_backoff-Runs,
}

abbrev pub calls : List Event → ℕ
calls [] = 0
calls (returned ∷ h) = suc (calls h)
calls (raised x ∷ h) = suc (calls h)
calls (clock t ∷ h) = calls h
calls (drawn r ∷ h) = calls h
calls (slept ms ∷ h) = calls h

-- The last error of a history, or that of a budget that had ended before.
abbrev pub last_raised : List Event → Thrown
last_raised [] = budget_exhausted
last_raised (raised x ∷ h) = x
last_raised (returned ∷ h) = last_raised h
last_raised (clock t ∷ h) = last_raised h
last_raised (drawn r ∷ h) = last_raised h
last_raised (slept ms ∷ h) = last_raised h

abbrev pub successes : List Event → ℕ
successes [] = 0
successes (returned ∷ h) = suc (successes h)
successes (raised x ∷ h) = successes h
successes (clock t ∷ h) = successes h
successes (drawn r ∷ h) = successes h
successes (slept ms ∷ h) = successes h

-- A result goes with one call that returned, and an error is the last that was raised.
abbrev pub EndsWith : {R : Type 0} → Outcome R → List Event → Type 0
EndsWith (ok r) h = successes h ≡ 1
EndsWith (err x) h = (successes h ≡ 0) × (x ≡ last_raised h)

-- Drawing a random number is no call.
roll-calls :
    (after : Option ℕ) (r : Fraction) (h : List Event)
    → (calls (roll after r h) ≡ calls h)
      × (successes (roll after r h) ≡ successes h)
      × (last_raised (roll after r h) ≡ last_raised h)
roll-calls none r h = (refl, refl, refl)
roll-calls (some after) r h = elim (Bool-cases (ltb 0 after)) [
  | inl used ↦ rw used (refl, refl, refl)
  | inr unused ↦ rw unused (refl, refl, refl)
]

module _ {R : Type 0} (env : Env R) (opts : RetryOptions)
    (get_retry_after : Option (PipelineError → Option ℕ)) where
  Paused-calls :
      {x : Thrown} {r : Fraction} {h h' : List Event} {u : ℕ}
      → Paused env get_retry_after x r h u h'
      → (calls h' ≡ calls h) × (successes h' ≡ successes h) × (last_raised h' ≡ last_raised h)
  Paused-calls {x} {r} {h} p = rw p.history (roll-calls (ask_retry_after get_retry_after x) r h)

  Runs-bound :
      {left attempt : ℕ} {last : Thrown} {h h' : List Event} {o : Outcome R}
      → Runs env opts get_retry_after left attempt last h o h'
      → successes h ≡ 0
      → last ≡ last_raised h
      → (calls h' ≤ calls h + left + 1) × EndsWith o h'
  Runs-bound (late t e p) s l = (omega arith, (s, l))
  Runs-bound (done t r e p c) s l = (omega arith, ap suc s)
  Runs-bound (fatal t x p f) s l = (omega arith, (s, refl))
  Runs-bound (spent t x p f) s l = (omega arith, (s, refl))
  Runs-bound (no_pause t u x r p f q z) s l =
      let (called, succeeded, raises) = Paused-calls q in
      (omega (arith, called), (succeeded ∙ s, sym raises))
  Runs-bound (again t u ms x r p f q z rest) s l =
      let (called, succeeded, raises) = Paused-calls q in
      let k = Runs-bound rest (succeeded ∙ s) (sym raises) in (omega (arith, k.0, called), k.1)

-- A run makes at most `maxAttempts + 1` calls. It returns a result after exactly one call that
-- returned; it throws the last error that a call raised, or, when no call was made, that the budget is
-- exhausted.
pub retry_with_backoff_bounds :
    {R : Type 0} (env : Env R) (opts : RetryOptions)
    (get_retry_after : Option (PipelineError → Option ℕ))
    → let end = retry_with_backoff env opts get_retry_after in
      (calls end.1 ≤ opts.max_attempts + 1) × EndsWith end.0 end.1
retry_with_backoff_bounds env opts get_retry_after =
    let k =
      Runs-bound env opts get_retry_after (retry_with_backoff-Runs env opts get_retry_after) refl
        refl in
    (omega (arith, k.0), k.1)

-- A function that keeps failing, in a way that may be retried, while time is left before each attempt
-- and for a pause after it.
pub record Fails {R : Type 0} (env : Env R) (opts : RetryOptions)
    (get_retry_after : Option (PipelineError → Option ℕ)) : Type 0 where
  pub error : List Event → Thrown
  pub throws : (h : List Event) → env.call h ≡ threw (error h)
  pub retried : (h : List Event) → is_final (error h) ≡ false
  pub in_time : (h : List Event) → has_time (env.now h) opts.budget ≡ true
  pub pauses :
      (attempt : ℕ) (h h' : List Event)
      → (k : ℕ) × ((back_off env opts get_retry_after attempt (error h) h').1 ≡ suc k)

module _ {R : Type 0} (env : Env R) (opts : RetryOptions)
    (get_retry_after : Option (PipelineError → Option ℕ)) where
  try_once-Fails :
      (f : Fails env opts get_retry_after) (last : Thrown) (h : List Event)
      → let h' = clock (env.now h) ∷ h in
        try_once env opts get_retry_after last h ≡ (failed (f.error h'), raised (f.error h') ∷ h')
  unfolding try_once
  try_once-Fails f last h =
      let h' = clock (env.now h) ∷ h in rw (try_once, f.in_time h, f.throws h', f.retried h') refl

  rounds-Fails :
      (f : Fails env opts get_retry_after) (left attempt : ℕ) (last : Thrown) (h : List Event)
      → calls (rounds env opts get_retry_after left attempt last h).1 ≡ calls h + left + 1
  unfolding rounds back_off
  rounds-Fails f zero attempt last h = rw (try_once-Fails f last h) (omega arith)
  rounds-Fails f (suc left) attempt last h =
      let h' = clock (env.now h) ∷ h in
      let pause = f.pauses attempt h' (raised (f.error h') ∷ h') in
      let x = f.error h' in
      let paused = back_off env opts get_retry_after attempt x (raised x ∷ h') in
      let after : ℕ → Outcome R × List Event = λ n. elim n [
        | zero ↦ (err x, paused.0)
        | suc ms ↦ rounds env opts get_retry_after left (attempt + 1) x (slept (suc ms) ∷ paused.0)
      ] in
      let no_call =
        (roll-calls (ask_retry_after get_retry_after x) (env.random (raised x ∷ h'))
          (raised x ∷ h')).0 in
      let rest = rounds-Fails f left (attempt + 1) x (slept (suc pause.0) ∷ paused.0) in
      rw (try_once-Fails f last h) (
        subst (λ n. calls (after n).1 ≡ calls h + suc left + 1) (sym pause.1)
          (omega (arith, rest, no_call)))

-- A function that keeps failing, with errors that are not marked as not retryable, PipelineErrors or
-- others, is called `maxAttempts + 1` times, if
-- before each call there is time left, and a pause after it that is not 0.
pub retry_with_backoff-Fails :
    {R : Type 0} (env : Env R) (opts : RetryOptions)
    (get_retry_after : Option (PipelineError → Option ℕ))
    → Fails env opts get_retry_after
    → calls (retry_with_backoff env opts get_retry_after).1 ≡ opts.max_attempts + 1
unfolding retry_with_backoff
retry_with_backoff-Fails env opts get_retry_after f =
    let all = rounds-Fails env opts get_retry_after f opts.max_attempts 0 budget_exhausted [] in
    omega (arith, all)
