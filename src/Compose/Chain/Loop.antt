-- ===== src/Compose/Chain/Loop.antt =====
-- src/compose/chain.ts: `buildStepRequest` and `execute`.
use prism_pipe.Prelude.{
  ℕ, ◌-◌, Bool, true, false, Option, none, some, String, List, [], ◌∷◌, ◌++◌, insert, str_append,
  get_or, if◌then◌else◌, any, ◌&&◌,
}
use prism_pipe.Core.Errors.{PipelineError, Thrown, pipeline, timeout, server_error}
use prism_pipe.Core.Timeout.{TimeoutBudget, has_time, slice}
use prism_pipe.Core.Canonical.{plain, user, CanonicalRequest}
use prism_pipe.Compose.Chain.{
  CompositionStep, StepResult, CompositionResult, TemplateContext, extract_text, present, or_else,
  result_of, success, handle_step_error, is_partial, is_success, is_usable, clock, called,
  responded, threw, Env, Run, End, returned, aborted, ran_out, Outcome, ok, err,
}

abbrev pub is_empty {ℓ} : {A : Type ℓ} → List A → Bool
is_empty [] = true
is_empty (x ∷ xs) = false

module _ {J : Type 0} (env : Env J) (original : CanonicalRequest J) (budget : TimeoutBudget) where
  -- The request for a step whose user message is `content`.
  abbrev pub with_user_content : CompositionStep → String → CanonicalRequest J
  with_user_content step content = record {
    model = get_or step.model original.model;
    messages = record { role = user; content = plain content } ∷ [];
    system_prompt = or_else step.system_prompt original.system_prompt;
    tools = none;
    temperature = original.temperature;
    max_tokens = original.max_tokens;
    top_p = original.top_p;
    stop_sequences = none;
    stream = some false;
    provider_extensions = none;
    extras = none;
  }

  abbrev pub with_original : CompositionStep → CanonicalRequest J
  with_original step = record original {
    model = get_or step.model original.model;
    system_prompt = or_else step.system_prompt original.system_prompt;
    stream = some false;
  }

  abbrev pub from_previous : CompositionStep → Option StepResult → CanonicalRequest J
  from_previous step none = with_original step
  from_previous step (some r) = with_user_content step r.content

  abbrev pub from_transform :
      CompositionStep → TemplateContext J → Option String → CanonicalRequest J
  from_transform step tpl none = from_previous step tpl.previous
  from_transform step tpl (some template) =
      with_user_content step (env.resolve_template template tpl)

  unfoldable pub build_step_request : CompositionStep → TemplateContext J → CanonicalRequest J
  build_step_request step tpl = from_transform step tpl (present step.input_transform)

  -- The error of a step that the budget does not reach; the message names only the step.
  abbrev pub exhausted : CompositionStep → Thrown
  exhausted step = pipeline (record {
    message = str_append "Timeout budget exhausted at step " step.name;
    code = timeout;
    step = some step.name;
    status_code = 504;
    retryable = true;
  })

  abbrev pub push : StepResult → Run J → Run J
  push r s = record s { completed = s.completed ++ r ∷ [] }

  -- `completedSteps.push(result); stepMap.set(step.name, result); tplCtx.previous = result`
  abbrev pub complete : StepResult → Run J → Run J
  complete r s = record s {
    completed = s.completed ++ r ∷ [];
    tpl = record {
      original = s.tpl.original;
      steps = insert r.name r s.tpl.steps;
      previous = some r;
    };
  }

  -- How one round goes on: to the next step, or to an end of the loop.
  abbrev pub after_error : CompositionStep → Bool → Option (End J)
  after_error step should_abort =
      if should_abort then some (aborted (is_partial step.on_error)) else none

  -- The `try` of one round with its `catch`; `started` is `stepStart`.
  unfoldable pub try_step : ℕ → Bool → CompositionStep → Run J → Option (End J) × Run J
  unfolding build_step_request handle_step_error slice
  try_step started is_last step s =
      let rem = env.now s.history in
      let begin = env.now (clock ∷ s.history) in
      let step_budget = slice rem begin step.timeout budget in
      let request = build_step_request step s.tpl in
      let s' = record s { history = clock ∷ called step.provider ∷ clock ∷ clock ∷ s.history } in
      let duration = env.now (called step.provider ∷ clock ∷ clock ∷ s.history) - started in
      elim (env.call (clock ∷ clock ∷ s.history) request step.provider step_budget) [
        | responded response ↦ (
          if is_last then some (returned response) else none,
          complete (result_of step success (extract_text response.content) none duration) s',
        )
        | threw e ↦
            let (r, should_abort) = handle_step_error step e duration in
            (after_error step should_abort, complete r s')
      ]

  -- One round of the loop.
  unfoldable pub round : Bool → CompositionStep → Run J → Option (End J) × Run J
  unfolding try_step handle_step_error
  round is_last step s =
      let started = env.now s.history in
      let in_time = has_time (env.now (clock ∷ s.history)) budget in
      let s' = record s { history = clock ∷ clock ∷ s.history } in
      if in_time
      then try_step started is_last step s'
      else (let (r, should_abort) = handle_step_error step (exhausted step) 0 in
          (after_error step should_abort, push r s'))

  unfoldable pub loop : List CompositionStep → Run J → End J × Run J
  unfolding round
  loop [] s = (ran_out, s)
  loop (step ∷ steps) s =
      let (stop, s') = round (is_empty steps) step s in
      elim stop [ some end ↦ (end, s') | none ↦ loop steps s' ]

  -- The error when no result is usable; its message is left short.
  abbrev pub all_failed : PipelineError
  all_failed = record {
    message = "Chain composition failed";
    code = server_error;
    step = some "chain_composer";
    status_code = 502;
    retryable = false;
  }

  -- Behind the loop; `total_start` is `totalStart`.
  unfoldable pub conclude : ℕ → End J × Run J → Outcome J
  conclude total_start (end, s) =
      let total = env.now s.history - total_start in
      let some_success = any (λ (r : StepResult). is_success r.status) s.completed in
      let some_usable = any (λ (r : StepResult). is_usable r.status) s.completed in
      let so_far : CompositionResult J = record {
        steps = s.completed;
        final_response = none;
        total_duration_ms = total;
      } in
      elim end [
        | returned response ↦ ok (record {
          steps = s.completed;
          final_response = some response;
          total_duration_ms = total;
        })
        | aborted partial ↦
            if partial && some_success
            then ok so_far
            else if some_usable
            then ok so_far
            else err all_failed
        | ran_out ↦ if some_usable then ok so_far else err all_failed
      ]

  abbrev pub start : Run J
  start = record {
    history = clock ∷ [];
    completed = [];
    tpl = record { original = original; steps = []; previous = none };
  }

  unfoldable pub execute : List CompositionStep → Outcome J
  unfolding loop conclude
  execute steps = conclude (env.now []) (loop steps start)
