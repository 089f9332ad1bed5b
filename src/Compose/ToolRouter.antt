-- ===== src/Compose/ToolRouter.antt =====
-- src/compose/tool-router.ts. Provider calls and local handlers are an environment that answers by
-- the history of the run, newest first; so are `JSON.stringify`, `path.resolve` from the working
-- directory and the text of a number. The loop recurses on the rounds that are left.
pub mod Answers
pub mod Loads
pub mod Rounds
mod Tests
use prism_pipe.Prelude.{
  ℕ, zero, suc, Bool, true, false, not, ◌&&◌, Option, none, some, String, List, [], ◌∷◌, ◌++◌, Map,
  lookup, keys, map, str_append, str_eq, if◌then◌else◌, get_or, includes, inherited,
}
use package.text.Mathlib.Text.{starts_with}
use prism_pipe.Core.Errors.{PipelineError, Thrown, pipeline, other, invalid_request}
use prism_pipe.Core.Canonical.{
  ContentBlock, text, image, tool_use, tool_result, thinking, ResultContent, Content, plain, blocks,
  user, assistant, tool, CanonicalMessage, CanonicalRequest, CanonicalResponse, ToolDefinition,
}
use prism_pipe.Compose.Chain.{extract_text, message_of, present}

pub record ToolHandler : Type 0 where
  pub provider : Option String
  pub handler : Option String

pub record ToolRouterConfig : Type 0 where
  pub primary : String
  pub max_rounds : Option ℕ
  pub tools : Map ToolHandler

-- `config.maxRounds ?? 5`
abbrev pub rounds_of : ToolRouterConfig → ℕ
rounds_of c = get_or c.max_rounds 5

-- What a run does to the outside: a request of the loop to the primary model, a request for a tool
-- call, to whatever provider its handler names, the primary one included, or a local module.
pub data Event (J : Type 0) : Type 0 where
  asked_round : CanonicalRequest J → Event J
  asked_tool : (provider : String) → CanonicalRequest J → Event J
  loaded : (path : String) → Event J

pub data Answer (J : Type 0) : Type 0 where
  responded : CanonicalResponse J → Answer J
  threw : Thrown → Answer J

-- A local handler: its result as the text of the tool result, a module without a function, or what
-- it throws.
pub data Local : Type 0 where
  returned : String → Local
  no_function : Local
  failed : Thrown → Local

pub record Env (J : Type 0) : Type 0 where
  pub call : List (Event J) → String → CanonicalRequest J → Answer J
  pub run_handler : List (Event J) → (path : String) → (name : String) → J → Local
  pub stringify : J → String
  pub stringify_error : String → String
  pub resolve : String → String
  pub cwd : String
  pub decimal : ℕ → String
  pub empty_schema : J

abbrev pub router_error : String → ℕ → PipelineError
router_error message status = record {
  message = message;
  code = invalid_request;
  step = some "tool-router";
  status_code = status;
  retryable = false;
}

-- What `executeToolCall` comes to: the content of the result, or what it throws.
pub data ToolOutcome : Type 0 where
  content_of : String → ToolOutcome
  raised : Thrown → ToolOutcome

pub data Outcome (J : Type 0) : Type 0 where
  ok : CanonicalResponse J → Outcome J
  err : Thrown → Outcome J

module _ {J : Type 0} where
  -- The blocks of type `tool_use`.
  abbrev pub tool_calls : List (ContentBlock J) → List (ContentBlock J)
  tool_calls [] = []
  tool_calls (tool_use id name input ∷ bs) = tool_use id name input ∷ tool_calls bs
  tool_calls (text t ∷ bs) = tool_calls bs
  tool_calls (image s ∷ bs) = tool_calls bs
  tool_calls (tool_result id c e ∷ bs) = tool_calls bs
  tool_calls (thinking t ∷ bs) = tool_calls bs

  abbrev pub is_empty : List (ContentBlock J) → Bool
  is_empty [] = true
  is_empty (b ∷ bs) = false

module _ {J : Type 0} (env : Env J) where
  -- `validateHandlerPath`: what it throws, if anything.
  unfoldable pub validate_handler_path : String → Option Thrown
  validate_handler_path path =
      if not (starts_with path "./") && not (starts_with path "../")
      then some (
          pipeline (
            router_error
              (str_append "Handler path must be a relative path starting with ./ or ../: " path)
              500))
      else if not (starts_with (env.resolve path) env.cwd)
      then some (
          pipeline
            (router_error (str_append "Handler path escapes workspace directory: " path) 500))
      else none

  abbrev pub tool_request : String → String → J → CanonicalRequest J
  tool_request provider name input = record {
    model = provider;
    messages =
        record {
          role = user;
          content = plain (
              str_append "Execute "
                (str_append name (str_append " with input: " (env.stringify input))));
        }
        ∷ [];
    system_prompt = none;
    tools = none;
    temperature = none;
    max_tokens = none;
    top_p = none;
    stop_sequences = none;
    stream = none;
    provider_extensions = none;
    extras = none;
  }

  abbrev pub provider_text : Answer J → ToolOutcome
  provider_text (responded r) = content_of (extract_text r.content)
  provider_text (threw t) = raised t

  abbrev pub local_text : String → Local → ToolOutcome
  local_text path (returned t) = content_of t
  local_text path no_function =
      raised (
        pipeline (router_error (str_append "Handler module does not export a function: " path) 500))
  local_text path (failed t) = raised t

  abbrev pub call_provider : String → String → J → List (Event J) → ToolOutcome × List (Event J)
  call_provider provider name input h =
      let req = tool_request provider name input in
      (provider_text (env.call h provider req), asked_tool provider req ∷ h)

  abbrev pub call_local : String → String → J → List (Event J) → ToolOutcome × List (Event J)
  call_local path name input h = elim (validate_handler_path path) [
    | some t ↦ (raised t, h)
    | none ↦ (local_text path (env.run_handler h path name input), loaded path ∷ h)
  ]

  unfoldable pub execute_tool_call :
      ToolHandler → String → J → List (Event J) → ToolOutcome × List (Event J)
  unfolding validate_handler_path
  execute_tool_call handler name input h = elim (present handler.provider) [
    | some provider ↦ call_provider provider name input h
    | none ↦ elim (present handler.handler) [
      | some path ↦ call_local path name input h
      | none ↦ (
        raised (pipeline (router_error "Tool handler must specify either provider or handler" 500)),
        h,
      )
    ]
  ]

  -- The result that is pushed for a call.
  abbrev pub result_block : String → ToolOutcome → ContentBlock J
  result_block id (content_of t) = tool_result id (ResultContent.plain t) none
  result_block id (raised e) =
      tool_result id (ResultContent.plain (env.stringify_error (message_of e))) (some true)

  abbrev pub unknown_tool : String → String → ContentBlock J
  unknown_tool id name =
      tool_result id
        (ResultContent.plain
          (env.stringify_error (str_append "No handler configured for tool: " name)))
        (some true)

  module _ (config : ToolRouterConfig) where
    -- `config.tools[name]`: under a key of `Object.prototype` it finds a value that has neither a
    -- provider nor a handler.
    abbrev pub handler_of : String → Option ToolHandler
    handler_of name = elim (lookup name config.tools) [
      | some handler ↦ some handler
      | none ↦
          if includes inherited name
          then some (record { provider = none; handler = none })
          else none
    ]

    -- One round of the loop over the tool calls.
    unfoldable pub answer_call :
        String → String → J → List (Event J) → ContentBlock J × List (Event J)
    unfolding execute_tool_call
    answer_call id name input h = elim (handler_of name) [
      | none ↦ (unknown_tool id name, h)
      | some handler ↦
          let (outcome, h') = execute_tool_call handler name input h in
          (result_block id outcome, h')
    ]

    -- The loop over the tool calls; other blocks are passed over.
    unfoldable pub answer_calls :
        List (ContentBlock J) → List (Event J) → List (ContentBlock J) × List (Event J)
    unfolding answer_call
    answer_calls [] h = ([], h)
    answer_calls (tool_use id name input ∷ bs) h =
        let (result, h') = answer_call id name input h in
        let (results, h'') = answer_calls bs h' in (result ∷ results, h'')
    answer_calls (text t ∷ bs) h = answer_calls bs h
    answer_calls (image s ∷ bs) h = answer_calls bs h
    answer_calls (tool_result id c e ∷ bs) h = answer_calls bs h
    answer_calls (thinking t ∷ bs) h = answer_calls bs h

    -- The request of the next round.
    abbrev pub with_results :
        CanonicalRequest J → List (ContentBlock J) → List (ContentBlock J) → CanonicalRequest J
    with_results req content results = record req {
      messages =
          req.messages
          ++ (record { role = assistant; content = blocks content }
              ∷ record { role = tool; content = blocks results }
              ∷ []);
    }

    abbrev pub exceeded : PipelineError
    exceeded =
        router_error
          (str_append "Tool router exceeded max rounds: " (env.decimal (rounds_of config))) 400

    unfoldable pub rounds : ℕ → CanonicalRequest J → List (Event J) → Outcome J × List (Event J)
    unfolding answer_calls
    rounds zero req h = (err (pipeline exceeded), h)
    rounds (suc left) req h = elim (env.call h config.primary req) [
      | threw t ↦ (err t, asked_round req ∷ h)
      | responded r ↦ elim (is_empty (tool_calls r.content)) [
        | true ↦ (ok r, asked_round req ∷ h)
        | false ↦
            let (results, h') = answer_calls (tool_calls r.content) (asked_round req ∷ h) in
            rounds left (with_results req r.content results) h'
      ]
    ]

    unfoldable pub execute : CanonicalRequest J → Outcome J × List (Event J)
    unfolding rounds
    execute req = rounds (rounds_of config) req []

    abbrev pub definition_of : String → ToolDefinition J
    definition_of name = record {
      name = name;
      description = str_append "Tool: " name;
      input_schema = env.empty_schema;
    }

    unfoldable pub get_tool_definitions : List (ToolDefinition J)
    get_tool_definitions = map definition_of (keys config.tools)
