-- ===== src/Compose/ToolRouter/Tests.antt =====
-- A run of the tool router, and its theorems at it.
use prism_pipe.Prelude.{ℕ, ◌≡◌, ◌≤◌, refl, true, none, some, List, [], ◌∷◌, lookup, length, All}
use prism_pipe.Core.Canonical.{
  ContentBlock, text, tool_use, tool_result, ResultContent, plain, user, CanonicalRequest,
  CanonicalResponse, end,
}
use prism_pipe.Compose.ToolRouter.{
  ToolRouterConfig, Event, Env, responded, no_function, ok, tool_calls, validate_handler_path,
  execute_tool_call, answer_call, answer_calls, rounds_of, rounds, execute,
}
use prism_pipe.Compose.ToolRouter.Answers.{turns, Answered, answer_calls-Answered}
use prism_pipe.Compose.ToolRouter.Loads.{loads, IsLocal}
use prism_pipe.Compose.ToolRouter.Rounds.{Dialogue, execute-Dialogue}

abbrev reply : List (ContentBlock ℕ) → CanonicalResponse ℕ
reply content = record {
  id = "r";
  model = "m";
  content = content;
  stop_reason = end;
  usage = record { input_tokens = 1; output_tokens = 1; total_tokens = 2 };
  provider_extensions = none;
}

-- The primary model asks for two tools first, and answers when it is asked again.
abbrev primary_reply : List (Event ℕ) → CanonicalResponse ℕ
primary_reply [] = reply (tool_use "1" "find" 7 ∷ text "and" ∷ tool_use "2" "sing" 8 ∷ [])
primary_reply (e ∷ h) = reply (text "found" ∷ [])

abbrev world : Env ℕ
world = record {
  call = λ h provider req. responded (primary_reply h);
  run_handler = λ h path name input. no_function;
  stringify = λ input. "{}";
  stringify_error = λ message. message;
  resolve = λ path. path;
  cwd = "/srv";
  decimal = λ n. "n";
  empty_schema = 0;
}

abbrev config : ToolRouterConfig
config = record {
  primary = "main";
  max_rounds = some 2;
  tools = ("find", record { provider = some "search"; handler = none }) ∷ [];
}

abbrev question : CanonicalRequest ℕ
question = record {
  model = "m";
  messages = record { role = user; content = plain "?" } ∷ [];
  system_prompt = none;
  tools = none;
  temperature = none;
  max_tokens = none;
  top_p = none;
  stop_sequences = none;
  stream = none;
  provider_extensions = none;
  extras = none;
}

router_runs : Unit {0}
unfolding execute rounds answer_calls answer_call execute_tool_call validate_handler_path lookup
router_runs = tt

two_answers :
    (answer_calls world config (tool_use "1" "find" 7 ∷ tool_use "2" "sing" 8 ∷ []) []).0
    ≡ tool_result "1" (ResultContent.plain "and") none
      ∷ tool_result "2" (ResultContent.plain "No handler configured for tool: sing") (some true)
      ∷ []
unfolding router_runs
two_answers = refl

answered_in_two : (execute world config question).0 ≡ ok (reply (text "found" ∷ []))
unfolding router_runs
answered_in_two = refl

-- A tool named like a method of every object has a handler, of no use.
inherited_name :
    (answer_calls world config (tool_use "3" "toString" 9 ∷ []) []).0
    ≡ tool_result "3"
        (ResultContent.plain "Tool handler must specify either provider or handler")
        (some true)
      ∷ []
unfolding router_runs
inherited_name = refl

answer_calls-Answered_example :
    Answered world config
      (tool_calls (primary_reply []).content)
      []
      (answer_calls world config (primary_reply []).content []).0
      (answer_calls world config (primary_reply []).content []).1
answer_calls-Answered_example = answer_calls-Answered world config (primary_reply []).content []

execute-Dialogue_example :
    Dialogue world config
      (rounds_of config)
      question
      []
      (execute world config question).0
      (execute world config question).1
    × (length (turns (execute world config question).1) ≤ rounds_of config)
    × All (IsLocal world) (loads (execute world config question).1)
execute-Dialogue_example = execute-Dialogue world config question
