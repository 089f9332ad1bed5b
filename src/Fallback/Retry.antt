-- ===== src/Fallback/Retry.antt =====
-- src/fallback/retry.ts: `retryWithBackoff`. The function that is retried, the clock and
-- `Math.random` are an environment that answers by the history of the run. Fractions stand for the
-- doubles of the source, whose rounding is left out.
pub mod Delay
pub mod Rounds
pub mod Results
mod Tests
use prism_pipe.Prelude.{
  ℕ, zero, suc, ◌+◌, ◌-◌, ◌*◌, ◌/◌, ◌^◌, Bool, true, false, Option, none, some, List, [], ◌∷◌, min,
  ltb, if◌then◌else◌, get_or,
}
use prism_pipe.Core.Errors.{timeout, PipelineError, Thrown, pipeline, other}
use prism_pipe.Core.Timeout.{TimeoutBudget, has_time, remaining}

pub record Fraction : Type 0 where
  pub over : ℕ
  pub under : ℕ

-- What a run does, newest first in a history.
pub data Event : Type 0 where
  clock : ℕ → Event
  returned : Event
  raised : Thrown → Event
  drawn : Fraction → Event
  slept : ℕ → Event

pub data Answer (R : Type 0) : Type 0 where
  result : R → Answer R
  threw : Thrown → Answer R

-- The clock, the function and `Math.random` may answer by all that has happened so far.
pub record Env (R : Type 0) : Type 0 where
  pub now : List Event → ℕ
  pub call : List Event → Answer R
  pub random : List Event → Fraction

pub record RetryOptions : Type 0 where
  pub max_attempts : ℕ
  pub base_delay_ms : Option ℕ
  pub max_delay_ms : Option ℕ
  pub jitter : Option Fraction
  pub budget : TimeoutBudget

-- `Math.round(n / d)`
unfoldable pub round_div : ℕ → ℕ → ℕ
round_div n d = (2 * n + d) / (2 * d)

-- `capped + (random * 2 - 1) * (capped * jitter)` over the product of the denominators. Where it
-- is below 0, the code's `Math.max(0, …)` makes it 0, and so does subtraction on ℕ.
abbrev pub jittered : Fraction → Fraction → ℕ → ℕ
jittered random jitter capped =
    capped * random.under * jitter.under
    + capped * jitter.over * (2 * random.over)
    - capped * jitter.over * random.under

abbrev pub exponential_delay : Fraction → ℕ → ℕ → ℕ → Fraction → ℕ
exponential_delay random attempt base max jitter =
    let capped = min (base * 2 ^ attempt) max in
    round_div (jittered random jitter capped) (random.under * jitter.under)

unfoldable pub calculate_backoff : Fraction → ℕ → ℕ → ℕ → Fraction → Option ℕ → ℕ
unfolding round_div
calculate_backoff random attempt base max jitter none =
    exponential_delay random attempt base max jitter
calculate_backoff random attempt base max jitter (some after) =
    if ltb 0 after then min after max else exponential_delay random attempt base max jitter

pub data Outcome (R : Type 0) : Type 0 where
  ok : R → Outcome R
  err : Thrown → Outcome R

abbrev pub budget_exhausted : Thrown
budget_exhausted = pipeline (record {
  message = "Retry budget exhausted (timeout)";
  code = timeout;
  step = some "retry";
  status_code = 504;
  retryable = false;
})

-- `pErr && !pErr.retryable`
abbrev pub is_final : Thrown → Bool
is_final (pipeline e) = if e.retryable then false else true
is_final (other text) = false

-- `pErr && getRetryAfter ? getRetryAfter(pErr) : undefined`
abbrev pub ask_retry_after : Option (PipelineError → Option ℕ) → Thrown → Option ℕ
ask_retry_after (some get) (pipeline e) = get e
ask_retry_after (some get) (other text) = none
ask_retry_after none thrown = none

-- `Math.random` is called only where no `Retry-After` above 0 is used.
abbrev pub roll : Option ℕ → Fraction → List Event → List Event
roll none r h = drawn r ∷ h
roll (some after) r h = if ltb 0 after then h else drawn r ∷ h

-- How a round ends: with the run, or with an error that may be retried.
pub data Round (R : Type 0) : Type 0 where
  finished : Outcome R → Round R
  failed : Thrown → Round R

abbrev pub settle :
    {R : Type 0}
    → Round R × List Event
    → (Thrown → List Event → Outcome R × List Event)
    → Outcome R × List Event
settle (finished outcome, h) next = (outcome, h)
settle (failed thrown, h) next = next thrown h

module _ {R : Type 0} (env : Env R) (opts : RetryOptions)
    (get_retry_after : Option (PipelineError → Option ℕ)) where
  -- The defaults of the destructuring
  abbrev pub base_of : ℕ
  base_of = get_or opts.base_delay_ms 500

  abbrev pub max_of : ℕ
  max_of = get_or opts.max_delay_ms 30000

  abbrev pub jitter_of : Fraction
  jitter_of = get_or opts.jitter (record { over = 1; under = 5 })

  -- The delay before the next attempt, after it has been cut to the time that is left.
  unfoldable pub back_off : ℕ → Thrown → List Event → List Event × ℕ
  unfolding calculate_backoff
  back_off attempt thrown h =
      let r = env.random h in
      let after = ask_retry_after get_retry_after thrown in
      let delay = calculate_backoff r attempt base_of max_of jitter_of after in
      let h' = roll after r h in
      let t = env.now h' in (clock t ∷ h', min delay (remaining t opts.budget))

  -- A round up to the tests on the number of attempts. `last` is what is thrown when there is no time.
  unfoldable pub try_once : Thrown → List Event → Round R × List Event
  try_once last h =
      let t = env.now h in
      elim (has_time t opts.budget) [
        | false ↦ (finished (err last), clock t ∷ h)
        | true ↦ elim (env.call (clock t ∷ h)) [
          | result r ↦ (finished (ok r), returned ∷ clock t ∷ h)
          | threw thrown ↦ (
            (if is_final thrown then finished (err thrown) else failed thrown),
            raised thrown ∷ clock t ∷ h,
          )
        ]
      ]

  -- The loop; `left` counts the rounds that its bound still allows after this one.
  unfoldable pub rounds : ℕ → ℕ → Thrown → List Event → Outcome R × List Event
  unfolding back_off try_once
  rounds zero attempt last h = settle (try_once last h) (λ thrown h'. (err thrown, h'))
  rounds (suc left) attempt last h = settle (try_once last h) (λ thrown h'.
      let (timed, delay) = back_off attempt thrown h' in
      elim delay [
        | zero ↦ (err thrown, timed)
        | suc ms ↦ rounds left (attempt + 1) thrown (slept (suc ms) ∷ timed)
      ])

  -- The error behind the loop is never that of no attempt, since the loop makes a round.
  unfoldable pub retry_with_backoff : Outcome R × List Event
  unfolding rounds
  retry_with_backoff = rounds opts.max_attempts 0 budget_exhausted []
