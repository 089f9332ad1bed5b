-- ===== src/Fallback.antt =====
-- src/fallback/chain.ts: providers are tried in order, with retries and backoff. The provider call
-- (src/proxy/provider.ts) and the clock are an environment that answers by the history of the run.
pub mod Cases
pub mod Keeps
pub mod Bounds
pub mod Errors
pub mod Timing
pub mod Skips
pub mod Leak
pub mod Retry
mod Tests
use prism_pipe.Prelude.{
  ℕ, zero, suc, ◌+◌, ◌-◌, ◌*◌, ◌^◌, ◌≡◌, Bool, true, false, Option, none, some, List, [], ◌∷◌,
  String, ltb, if◌then◌else◌, min, last?, length, ◌++◌, get_or,
}
use prism_pipe.Core.Errors.{
  ErrorClass, server_error, unknown, PipelineError, Thrown, pipeline, other,
}
use prism_pipe.Core.Timeout.{TimeoutBudget, has_time, remaining}
use prism_pipe.Breaker.Registry.{CircuitBreakerRegistry, is_available, note_success, note_failure}

-- What a run does to the outside, newest first in a history.
pub data Event : Type 0 where
  clock : ℕ → Event
  skipped : String → Event
  succeeded : String → Event
  failed : String → PipelineError → Event
  slept : ℕ → Event

-- The answer of one call of a provider.
pub data Answer (R : Type 0) : Type 0 where
  returned : R → Answer R
  threw : Thrown → Answer R

-- The clock and the providers may answer by all that has happened so far.
pub record Env (R : Type 0) : Type 0 where
  pub now : List Event → ℕ
  pub call : List Event → String → Answer R

pub record FallbackChainOptions : Type 0 where
  pub providers : List String
  pub budget : TimeoutBudget
  pub max_retries : Option ℕ
  pub base_backoff_ms : Option ℕ
  pub circuit_breakers : Option CircuitBreakerRegistry

-- The variables of a run: the history, the registry and the list `errors`, newest last.
pub record Run : Type 0 where
  pub history : List Event
  pub breakers : Option CircuitBreakerRegistry
  pub errors : List (String × PipelineError)

abbrev pub log : Event → Run → Run
log e s = record s { history = e ∷ s.history }

-- `err instanceof PipelineError ? err : new PipelineError(String(err), …)`
abbrev pub to_pipeline_error : String → Thrown → PipelineError
to_pipeline_error name (pipeline e) = e
to_pipeline_error name (other text) = record {
  message = text;
  code = unknown;
  step = some name;
  status_code = 500;
  retryable = false;
}

-- How the attempts on one provider end: with its result, or on to the next provider.
pub data Attempts (R : Type 0) : Type 0 where
  done : R → Attempts R
  give_up : Attempts R

pub data Outcome (R : Type 0) : Type 0 where
  ok : R → Outcome R
  err : PipelineError → Outcome R

abbrev pub last_code : Option (String × PipelineError) → ErrorClass
last_code none = server_error
last_code (some (name, e)) = e.code

abbrev pub last_status : Option (String × PipelineError) → ℕ
last_status none = 502
last_status (some (name, e)) = e.status_code

-- The message counts the providers; the count is left out of the text.
abbrev pub exhausted : List (String × PipelineError) → PipelineError
exhausted errors = record {
  message = "All providers failed";
  code = last_code (last? errors);
  step = some "fallback_chain";
  status_code = last_status (last? errors);
  retryable = false;
}

-- The result that is returned, or the error thrown when all providers are exhausted.
unfoldable pub finish : {R : Type 0} → Attempts R × Run → Outcome R × Run
finish (done r, s) = (ok r, s)
finish (give_up, s) = (err (exhausted s.errors), s)

module _ {R : Type 0} (env : Env R) (opts : FallbackChainOptions) where
  -- `maxRetries = 2` and `baseBackoffMs = 500` in the destructuring
  abbrev pub max_retries_of : ℕ
  max_retries_of = get_or opts.max_retries 2

  abbrev pub base_backoff_of : ℕ
  base_backoff_of = get_or opts.base_backoff_ms 500

  -- `timeout.hasTime()`
  unfoldable pub check_time : Run → Run × Bool
  check_time s = let t = env.now s.history in (log (clock t) s, has_time t opts.budget)

  -- `circuitBreakers && !circuitBreakers.isAvailable(config.name)`; the clock is that of the breaker.
  unfoldable pub check_breaker : String → Run → Run × Bool
  check_breaker name s = elim s.breakers [
    | none ↦ (s, true)
    | some r ↦
        let t = env.now s.history in
        let (r', allowed) = is_available t name r in
        (record s { history = clock t ∷ s.history; breakers = some r' }, allowed)
  ]

  -- `breaker?.recordSuccess()`
  unfoldable pub breaker_success : String → Run → Run
  breaker_success name s = elim s.breakers [
    | none ↦ s
    | some r ↦ record s { breakers = some (note_success (env.now s.history) name r) }
  ]

  -- `breaker?.recordFailure()`
  unfoldable pub breaker_failure : String → Run → Run
  breaker_failure name s = elim s.breakers [
    | none ↦ s
    | some r ↦
        let t = env.now s.history in
        record s { history = clock t ∷ s.history; breakers = some (note_failure t name r) }
  ]

  -- The `catch` block up to its tests: the breaker, the list of errors and the log.
  unfoldable pub note_error : String → PipelineError → Run → Run
  unfolding breaker_failure
  note_error name e s =
      let s' = breaker_failure name (log (failed name e) s) in
      record s' { errors = s'.errors ++ (name, e) ∷ [] }

  -- `await sleep(Math.min(backoff, timeout.remaining()))`
  unfoldable pub back_off : ℕ → Run → Run
  back_off attempt s =
      let t = env.now s.history in
      let pause = min (base_backoff_of * 2 ^ attempt) (remaining t opts.budget) in
      record s { history = slept pause ∷ clock t ∷ s.history }

  -- The inner loop; `left` counts the rounds that its bound still allows, so that
  -- `attempt < maxRetries` reads `0 < left` after the round's own.
  unfoldable pub attempts : ℕ → ℕ → String → Run → Attempts R × Run
  unfolding check_time note_error back_off breaker_success
  attempts zero attempt name s = (give_up, s)
  attempts (suc left) attempt name s =
      let (timed, in_time) = check_time s in
      elim in_time [
        | false ↦ (give_up, timed)
        | true ↦ elim (env.call timed.history name) [
          | returned r ↦ (done r, breaker_success name (log (succeeded name) timed))
          | threw thrown ↦
              let e = to_pipeline_error name thrown in
              let noted = note_error name e timed in
              elim e.retryable [
                | false ↦ (give_up, noted)
                | true ↦
                    let rested = if ltb 0 left then back_off attempt noted else noted in
                    attempts left (attempt + 1) name rested
              ]
        ]
      ]

  -- The outer loop.
  unfoldable pub try_providers : List String → Run → Attempts R × Run
  unfolding check_time check_breaker attempts
  try_providers [] s = (give_up, s)
  try_providers (name ∷ names) s =
      let (timed, in_time) = check_time s in
      elim in_time [
        | false ↦ (give_up, timed)
        | true ↦
            let (asked, available) = check_breaker name timed in
            elim available [
              | false ↦ try_providers names (log (skipped name) asked)
              | true ↦
                  let (result, tried) = attempts (max_retries_of + 1) 0 name asked in
                  elim result [ done r ↦ (done r, tried) | give_up ↦ try_providers names tried ]
            ]
      ]

  abbrev pub start : Run
  start = record { history = []; breakers = opts.circuit_breakers; errors = [] }

  unfoldable pub execute_fallback_chain : Outcome R × Run
  unfolding try_providers finish
  execute_fallback_chain = finish (try_providers opts.providers start)
