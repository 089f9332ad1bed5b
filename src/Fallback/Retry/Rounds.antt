-- ===== src/Fallback/Retry/Rounds.antt =====
-- What a run of src/fallback/retry.ts may do, as a relation, and that the loop does only that.
use prism_pipe.Prelude.{
  ℕ, zero, suc, ◌+◌, ◌-◌, min, ◌≡◌, refl, sym, subst, ◌⊎◌, ◌<◌, ◌≤◌, true, false, Option, List, [],
  ◌∷◌, Bool-cases, inl, inr,
}
use prism_pipe.Core.Errors.{PipelineError, Thrown}
use prism_pipe.Core.Timeout.{has_time, remaining, has_time_iff, has_time-false}
use prism_pipe.Fallback.Retry.{
  Fraction, Event, clock, returned, raised, slept, Answer, result, threw, Env, RetryOptions,
  Outcome, ok, err, base_of, max_of, jitter_of, calculate_backoff, ask_retry_after, roll, is_final,
  budget_exhausted, Round, finished, failed, back_off, try_once, settle, rounds, retry_with_backoff,
}

-- The clock shows `t` while time is left, and the call behind it raises `x`.
pub record Failed {R : Type 0} (env : Env R) (opts : RetryOptions) (h : List Event) (t : ℕ)
    (x : Thrown) : Type 0 where
  pub asked_at : t ≡ env.now h
  pub in_time : t < opts.budget.deadline_at
  pub raises : env.call (clock t ∷ h) ≡ threw x

-- Before a pause after `x`, `Math.random` gives `r`, if it is called, and the clock shows `u`.
pub record Paused {R : Type 0} (env : Env R) (get_retry_after : Option (PipelineError → Option ℕ))
    (x : Thrown) (r : Fraction) (h : List Event) (u : ℕ) (h' : List Event) : Type 0 where
  pub random : r ≡ env.random h
  pub asked_at : u ≡ env.now (roll (ask_retry_after get_retry_after x) r h)
  pub history : h' ≡ clock u ∷ roll (ask_retry_after get_retry_after x) r h

module _ {R : Type 0} (env : Env R) (opts : RetryOptions)
    (get_retry_after : Option (PipelineError → Option ℕ)) where
  -- The pause after the failed attempt of this number, if the clock shows `u` then.
  abbrev pub pause_of : Fraction → ℕ → Thrown → ℕ → ℕ
  pause_of r attempt x u =
      min
        (calculate_backoff r attempt (base_of env opts get_retry_after)
          (max_of env opts get_retry_after) (jitter_of env opts get_retry_after)
          (ask_retry_after get_retry_after x))
        (opts.budget.deadline_at - u)

  -- `Runs left attempt last h o h'`: from the history `h`, with `left` attempts allowed after the next
  -- one, whose number is `attempt`, and `last` the error before, a run ends with `o` and the history
  -- `h'`. Clock times, answers and random numbers are those of the environment.
  pub data Runs : ℕ → ℕ → Thrown → List Event → Outcome R → List Event → Type 0 where
    -- no time is left
    late :
        {left attempt : ℕ} {last : Thrown} {h : List Event} (t : ℕ)
        → t ≡ env.now h
        → opts.budget.deadline_at ≤ t
        → Runs left attempt last h (err last) (clock t ∷ h)
    -- the call returns
    done :
        {left attempt : ℕ} {last : Thrown} {h : List Event} (t : ℕ) (r : R)
        → t ≡ env.now h
        → t < opts.budget.deadline_at
        → env.call (clock t ∷ h) ≡ result r
        → Runs left attempt last h (ok r) (returned ∷ clock t ∷ h)
    -- the call raises an error that is not retryable
    fatal :
        {left attempt : ℕ} {last : Thrown} {h : List Event} (t : ℕ) (x : Thrown)
        → Failed env opts h t x
        → is_final x ≡ true
        → Runs left attempt last h (err x) (raised x ∷ clock t ∷ h)
    -- the last attempt fails
    spent :
        {attempt : ℕ} {last : Thrown} {h : List Event} (t : ℕ) (x : Thrown)
        → Failed env opts h t x
        → is_final x ≡ false
        → Runs 0 attempt last h (err x) (raised x ∷ clock t ∷ h)
    -- the delay is 0, or the time is up
    no_pause :
        {left attempt : ℕ} {last : Thrown} {h h' : List Event} (t u : ℕ) (x : Thrown) (r : Fraction)
        → Failed env opts h t x
        → is_final x ≡ false
        → Paused env get_retry_after x r (raised x ∷ clock t ∷ h) u h'
        → pause_of r attempt x u ≡ 0
        → Runs (suc left) attempt last h (err x) h'
    -- a pause within the time that is left, and then the rest of the run
    again :
        {left attempt : ℕ} {last : Thrown} {h h' h'' : List Event} {o : Outcome R} (t u ms : ℕ)
        (x : Thrown) (r : Fraction)
        → Failed env opts h t x
        → is_final x ≡ false
        → Paused env get_retry_after x r (raised x ∷ clock t ∷ h) u h'
        → pause_of r attempt x u ≡ suc ms
        → Runs left (attempt + 1) x (slept (suc ms) ∷ h') o h''
        → Runs (suc left) attempt last h o h''

Answer-cases :
    {R : Type 0} (a : Answer R) → ((r : R) × (a ≡ result r)) ⊎ ((x : Thrown) × (a ≡ threw x))
Answer-cases (result r) = inl (r, refl)
Answer-cases (threw x) = inr (x, refl)

zero_cases : (n : ℕ) → (n ≡ 0) ⊎ ((k : ℕ) × (n ≡ suc k))
zero_cases zero = inl refl
zero_cases (suc k) = inr (k, refl)

module _ {R : Type 0} (env : Env R) (opts : RetryOptions)
    (get_retry_after : Option (PipelineError → Option ℕ)) where
  -- What a round does, given what follows an error that may be retried.
  abbrev RunsTo : ℕ → ℕ → Thrown → List Event → Outcome R × List Event → Type 0
  RunsTo left attempt last h end = Runs env opts get_retry_after left attempt last h end.0 end.1

  try_once-Runs :
      (left attempt : ℕ) (last : Thrown) (h : List Event)
      (next : Thrown → List Event → Outcome R × List Event)
      → ((t : ℕ) (x : Thrown)
          → Failed env opts h t x
          → is_final x ≡ false
          → RunsTo left attempt last h (next x (raised x ∷ clock t ∷ h)))
      → RunsTo left attempt last h (settle (try_once env opts get_retry_after last h) next)
  unfolding try_once
  try_once-Runs left attempt last h next goes_on =
      let t = env.now h in
      let settled : (p : Round R × List Event)
          → try_once env opts get_retry_after last h ≡ p
          → RunsTo left attempt last h (settle p next)
          → RunsTo left attempt last h (settle (try_once env opts get_retry_after last h) next) =
        λ p e k. subst (λ q. RunsTo left attempt last h (settle q next)) (sym e) k in
      elim (Bool-cases (has_time t opts.budget)) [
        | inr up ↦
            settled (finished (err last), clock t ∷ h) (rw (try_once, up) refl)
              (late t refl (has_time-false t opts.budget up))
        | inl in_time ↦
            let t<d = (has_time_iff t opts.budget).0 in_time in
            elim (Answer-cases (env.call (clock t ∷ h))) [
              | inl (r, e) ↦
                  settled (finished (ok r), returned ∷ clock t ∷ h) (rw (try_once, in_time, e) refl)
                    (done t r refl t<d e)
              | inr (x, e) ↦
                  let failure : Failed env opts h t x = record {
                    asked_at = refl;
                    in_time = t<d;
                    raises = e;
                  } in
                  elim (Bool-cases (is_final x)) [
                    | inl final ↦
                        settled (finished (err x), raised x ∷ clock t ∷ h)
                          (rw (try_once, in_time, e, final) refl) (fatal t x failure final)
                    | inr retry ↦
                        settled (failed x, raised x ∷ clock t ∷ h)
                          (rw (try_once, in_time, e, retry) refl) (goes_on t x failure retry)
                  ]
            ]
      ]

  rounds-Runs :
      (left attempt : ℕ) (last : Thrown) (h : List Event)
      → RunsTo left attempt last h (rounds env opts get_retry_after left attempt last h)
  unfolding rounds back_off remaining
  rounds-Runs zero attempt last h =
      try_once-Runs zero attempt last h (λ x h'. (err x, h')) (λ t x f retry. spent t x f retry)
  rounds-Runs (suc left) attempt last h = try_once-Runs (suc left) attempt last h _ (λ t x f retry.
      let h' = raised x ∷ clock t ∷ h in
      let paused = back_off env opts get_retry_after attempt x h' in
      let r = env.random h' in
      let u = env.now (roll (ask_retry_after get_retry_after x) r h') in
      let before : Paused env get_retry_after x r h' u paused.0 = record {
        random = refl;
        asked_at = refl;
        history = refl;
      } in
      let after : ℕ → Outcome R × List Event = λ n. elim n [
        | zero ↦ (err x, paused.0)
        | suc ms ↦ rounds env opts get_retry_after left (attempt + 1) x (slept (suc ms) ∷ paused.0)
      ] in
      elim (zero_cases paused.1) [
        | inl none_left ↦
            subst (λ n. RunsTo (suc left) attempt last h (after n)) (sym none_left)
              (no_pause t u x r f retry before none_left)
        | inr (k, some_left) ↦
            subst (λ n. RunsTo (suc left) attempt last h (after n)) (sym some_left)
              (again t u k x r f retry before some_left
                (rounds-Runs left (attempt + 1) x (slept (suc k) ∷ paused.0)))
      ])

  -- A run is one that the relation `Runs` describes: at most `maxAttempts + 1` calls, each in time; an
  -- error that is marked as not retryable ends it at once, and after any other, also one that is no
  -- PipelineError, the code waits for the delay of this attempt, cut to the time that is left, and
  -- calls again, unless that is 0 or the attempts are used up: then the run ends with that error.
  pub retry_with_backoff-Runs :
      Runs env opts get_retry_after opts.max_attempts 0 budget_exhausted []
        (retry_with_backoff env opts get_retry_after).0
        (retry_with_backoff env opts get_retry_after).1
  unfolding retry_with_backoff
  retry_with_backoff-Runs = rounds-Runs opts.max_attempts 0 budget_exhausted []
