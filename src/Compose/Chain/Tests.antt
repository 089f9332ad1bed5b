-- ===== src/Compose/Chain/Tests.antt =====
-- Runs of src/compose/chain.ts, and instances of its theorems.
use prism_pipe.Prelude.{
  ℕ, ◌≡◌, ◌↔◌, true, false, none, some, List, [], ◌∷◌, ◌++◌, refl, str_eq, if◌then◌else◌,
}
use prism_pipe.Core.Errors.{PipelineError, other}
use prism_pipe.Core.Timeout.{TimeoutBudget, has_time}
use prism_pipe.Core.Canonical.{text, plain, user, CanonicalRequest, CanonicalResponse, end}
use prism_pipe.Compose.Chain.{
  CompositionStep, StepResult, success, error, fail, Env, responded, threw, ok, err,
}
use prism_pipe.Compose.Chain.Loop.{loop, start, execute}
use prism_pipe.Compose.Chain.Results.{result_names, step_names, Shape, loop-results}
use prism_pipe.Compose.Chain.Throws.{some_usable, execute-throws_iff}

abbrev question : CanonicalRequest ℕ
question = record {
  model = "gpt";
  messages = record { role = user; content = plain "hi" } ∷ [];
  system_prompt = none;
  tools = none;
  temperature = none;
  max_tokens = some 100;
  top_p = none;
  stop_sequences = none;
  stream = some true;
  provider_extensions = none;
  extras = none;
}

abbrev reply : CanonicalResponse ℕ
reply = record {
  id = "r";
  model = "gpt";
  content = text "plan" ∷ text "done" ∷ [];
  stop_reason = end;
  usage = record { input_tokens = 1; output_tokens = 2; total_tokens = 3 };
  provider_extensions = none;
}

-- Provider "down" always throws, any other answers; the clock stands still.
abbrev world : Env ℕ
world = record {
  now = λ h. 0;
  call =
      λ h req name budget. if str_eq name "down" then threw (other "no route") else responded reply;
  resolve_template = λ template ctx. template;
  decimal = λ n. "n";
}

abbrev budget : TimeoutBudget
budget = record { total_ms = 100; started_at = 0; deadline_at = 100 }

abbrev planner : CompositionStep
planner = record {
  name = "planner";
  provider = "up";
  input_transform = none;
  on_error = none;
  timeout = none;
  default_content = none;
  model = none;
  system_prompt = none;
}

abbrev executor : CompositionStep
executor = record planner { name = "executor"; provider = "down"; on_error = some fail }

abbrev plan : List CompositionStep
plan = planner ∷ executor ∷ planner ∷ []

-- What a test must see through.
chain_runs : Unit {0}
unfolding execute has_time
chain_runs = tt

abbrev planned : StepResult
planned = record {
  name = "planner";
  provider = "up";
  content = "plan\ndone";
  duration_ms = 0;
  status = success;
  message = none;
}

abbrev broken : StepResult
broken = record {
  name = "executor";
  provider = "down";
  content = "";
  duration_ms = 0;
  status = error;
  message = some "no route";
}

-- The step with the policy `fail` throws, and the chain returns all the same.
fail_after_success :
    execute world question budget plan
    ≡ ok (record { steps = planned ∷ broken ∷ []; final_response = none; total_duration_ms = 0 })
unfolding chain_runs
fail_after_success = refl

last_step_response :
    execute world question budget (planner ∷ [])
    ≡ ok (record { steps = planned ∷ []; final_response = some reply; total_duration_ms = 0 })
unfolding chain_runs
last_step_response = refl

loop-results_example :
    let out = loop world question budget plan (start world question budget) in
    (finished : List CompositionStep) × (rest : List CompositionStep) × (plan ≡ finished ++ rest)
    × (result_names out.1.completed ≡ step_names finished)
    × Shape out.0 rest out.1.completed
loop-results_example = loop-results world question budget plan

execute-throws_iff_example :
    ((e : PipelineError) × (execute world question budget plan ≡ err e)) ↔ (
      some_usable (loop world question budget plan (start world question budget)).1.completed
      ≡ false)
execute-throws_iff_example = execute-throws_iff world question budget plan
