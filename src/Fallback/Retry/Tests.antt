-- ===== src/Fallback/Retry/Tests.antt =====
-- Runs of the retry helper, and its theorems at concrete environments.
use prism_pipe.Prelude.{
  ℕ, ◌≡◌, refl, ◌≤◌, true, Option, none, some, List, [], ◌∷◌, ◌+◌, ◌*◌, ◌^◌, min, arith,
}
use prism_pipe.Core.Errors.{rate_limit, PipelineError, pipeline}
use prism_pipe.Core.Timeout.{has_time, remaining}
use prism_pipe.Fallback.Retry.{
  Fraction, Event, clock, returned, raised, slept, result, threw, Answer, Env, RetryOptions, ok,
  budget_exhausted, calculate_backoff, back_off, retry_with_backoff,
}
use prism_pipe.Fallback.Retry.Delay.{asked, calculate_backoff_bounds}
use prism_pipe.Fallback.Retry.Rounds.{Runs, retry_with_backoff-Runs}
use prism_pipe.Fallback.Retry.Results.{
  calls, EndsWith, retry_with_backoff_bounds, Fails, retry_with_backoff-Fails,
}

abbrev busy : PipelineError
busy = record {
  message = "busy";
  code = rate_limit;
  step = some "openai";
  status_code = 429;
  retryable = true;
}

abbrev half : Fraction
half = record { over = 1; under = 2 }

abbrev failing : Env ℕ
failing = record { now = λ h. 10; call = λ h. threw (pipeline busy); random = λ h. half }

abbrev second_time : List Event → Answer ℕ
second_time (clock t ∷ []) = threw (pipeline busy)
second_time _ = result 7

abbrev better : Env ℕ
better = record { now = λ h. 10; call = second_time; random = λ h. half }

abbrev wanted : RetryOptions
wanted = record {
  max_attempts = 2;
  base_delay_ms = some 100;
  max_delay_ms = none;
  jitter = none;
  budget = record { total_ms = 1000; started_at = 0; deadline_at = 1000 };
}

abbrev in_five : Option (PipelineError → Option ℕ)
in_five = some (λ e. some 5)

recovered :
    retry_with_backoff better wanted in_five
    ≡ (ok 7, returned ∷ clock 10 ∷ slept 5 ∷ clock 10 ∷ raised (pipeline busy) ∷ clock 10 ∷ [])
unfolding retry_with_backoff has_time remaining
recovered = refl

delayed : calculate_backoff half 2 100 300 (record { over = 1; under = 5 }) none ≡ 300
unfolding calculate_backoff
delayed = refl

calculate_backoff_bounds_example :
    (calculate_backoff half 2 100 300 (record { over = 1; under = 5 }) none ≤ 2 * 300)
    × (calculate_backoff half 2 100 300 (record { over = 0; under = 5 }) none
        ≡ min (asked none (100 * 2 ^ 2)) 300)
calculate_backoff_bounds_example =
    calculate_backoff_bounds half (record { over = 1; under = 5 }) 2 100 300 5 none
      (omega arith, omega arith) (omega arith, omega arith) (omega arith)

retry_with_backoff-Runs_example :
    Runs better wanted in_five 2 0 budget_exhausted []
      (retry_with_backoff better wanted in_five).0
      (retry_with_backoff better wanted in_five).1
retry_with_backoff-Runs_example = retry_with_backoff-Runs better wanted in_five

retry_with_backoff_bounds_example :
    (calls (retry_with_backoff better wanted in_five).1 ≤ 2 + 1)
    × EndsWith
        (retry_with_backoff better wanted in_five).0
        (retry_with_backoff better wanted in_five).1
retry_with_backoff_bounds_example = retry_with_backoff_bounds better wanted in_five

failing-Fails : Fails failing wanted in_five
unfolding has_time back_off remaining
failing-Fails = record {
  error = λ h. pipeline busy;
  throws = λ h. refl;
  retried = λ h. refl;
  in_time = λ h. refl;
  pauses = λ attempt h h'. (4, refl);
}

retry_with_backoff-Fails_example : calls (retry_with_backoff failing wanted in_five).1 ≡ 3
retry_with_backoff-Fails_example = retry_with_backoff-Fails failing wanted in_five failing-Fails
