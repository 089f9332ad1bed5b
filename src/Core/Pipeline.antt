-- ===== src/Core/Pipeline.antt =====
-- src/core/pipeline.ts: the Koa-style engine. A middleware is code outside the engine: a script that
-- reads and writes the context, awaits `next()` and sees what came of it, throws or returns.
pub mod Order
pub mod Onion
mod Tests
use prism_pipe.Prelude.{
  ℕ, suc, ◌+◌, Bool, true, false, Option, none, some, String, List, [], ◌∷◌, str_eq, str_append,
  if◌then◌else◌,
}
use prism_pipe.Core.Errors.{
  PipelineError, Thrown, pipeline, other, timeout, invalid_request, unknown,
}
use prism_pipe.Core.Timeout.{TimeoutBudget, has_time}

-- The rest of a middleware's body; `C` is the context. `await_next` goes on with `none` where
-- `next()` resolved and with what it threw where it was rejected (and may throw that again).
pub data Script (C : Type 0) : Type 0 where
  return : Script C
  raise : Thrown → Script C
  write : (C → C) → Script C → Script C
  read : (C → Script C) → Script C
  await_next : (Option Thrown → Script C) → Script C

-- `name` is empty for an anonymous function.
pub record Middleware (C : Type 0) : Type 0 where
  pub name : String
  pub body : Script C

-- What the engine does, newest first in a history: the start of a middleware by its index, the two
-- histograms `pipeline.middleware_ms` and `pipeline.total_ms`.
pub data Event : Type 0 where
  entered : ℕ → Event
  middleware_ms : String → Event
  total_ms : Event

pub record Run (C : Type 0) : Type 0 where
  pub ctx : C
  pub history : List Event

-- The clock, and the text of a number in a template string.
pub record Env : Type 0 where
  pub now : List Event → ℕ
  pub decimal : ℕ → String

abbrev pub log : {C : Type 0} → Event → Run C → Run C
log e s = record s { history = e ∷ s.history }

-- `next() called multiple times`
abbrev pub next_twice : String → PipelineError
next_twice step = record {
  message = "next() called multiple times";
  code = invalid_request;
  step = some step;
  status_code = 500;
  retryable = false;
}

abbrev pub expired : String → PipelineError
expired step = record {
  message = "Pipeline timeout expired";
  code = timeout;
  step = some step;
  status_code = 504;
  retryable = true;
}

-- The `catch` of `dispatch`.
abbrev pub wrap : String → Thrown → PipelineError
wrap step (pipeline e) = e
wrap step (other message) = record {
  message = message;
  code = unknown;
  step = some step;
  status_code = 500;
  retryable = false;
}

-- What a promise of the engine comes to: resolved, or rejected with an error.
abbrev pub Settled : Type 0 → Type 0
Settled C = Option PipelineError × Run C

abbrev pub as_thrown : Option PipelineError → Option Thrown
as_thrown none = none
as_thrown (some e) = some (pipeline e)

-- `middleware[${index}]`
abbrev pub numbered : Env → ℕ → String
numbered env index = str_append "middleware[" (str_append (env.decimal index) "]")

module _ {C : Type 0} where
  -- `await mw(ctx, next)`: `down` is `dispatch(index + 1)`, the flag is `nextCalled`.
  unfoldable pub run_body :
      (Run C → Settled C) → String → Bool → Script C → Run C → Option Thrown × Run C
  run_body down step called return s = (none, s)
  run_body down step called (raise t) s = (some t, s)
  run_body down step called (write f k) s = run_body down step called k (record s { ctx = f s.ctx })
  run_body down step called (read k) s = run_body down step called (k s.ctx) s
  run_body down step true (await_next k) s =
      run_body down step true (k (some (pipeline (next_twice step)))) s
  run_body down step false (await_next k) s =
      let (outcome, s') = down s in run_body down step true (k (as_thrown outcome)) s'

  -- The end of `dispatch`: the histogram, or the error as a `PipelineError`.
  unfoldable pub settle : String → Option Thrown × Run C → Settled C
  settle step (none, s) = (none, log (middleware_ms step) s)
  settle step (some t, s) = (some (wrap step t), s)

  module _ (env : Env) (budget : TimeoutBudget) where
    -- `mw.name || …`
    abbrev pub step_name : Middleware C → ℕ → String
    step_name mw index = if str_eq mw.name "" then numbered env index else mw.name

    unfoldable pub dispatch : List (Middleware C) → ℕ → Run C → Settled C
    unfolding run_body settle
    dispatch [] index s =
        if has_time (env.now s.history) budget
        then (none, s)
        else (some (expired (numbered env index)), s)
    dispatch (mw ∷ mws) index s =
        let step = step_name mw index in
        let down = dispatch mws (index + 1) in
        let run = settle step (run_body down step false mw.body (log (entered index) s)) in
        if has_time (env.now s.history) budget
        then run
        else (some (expired (numbered env index)), s)

    unfoldable pub execute : List (Middleware C) → C → Settled C
    unfolding dispatch
    execute mws ctx =
        let (outcome, s) = dispatch mws 0 (record { ctx = ctx; history = [] }) in
        (outcome, log total_ms s)
