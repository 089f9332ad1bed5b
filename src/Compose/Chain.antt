-- ===== src/Compose/Chain.antt =====
-- src/compose/chain.ts with the types of src/core/composer.ts. The provider call and the clock are
-- an environment that answers by the history of the run; so is the template engine of
-- src/compose/template.ts, given by the text that it makes of a template.
pub mod Loop
pub mod Results
pub mod Throws
mod Tests
use prism_pipe.Prelude.{
  ℕ, zero, suc, ◌+◌, ◌-◌, ◌≡◌, Bool, true, false, Option, none, some, String, List, [], ◌∷◌, ◌++◌,
  Map, insert, str_append, str_eq, get_or, if◌then◌else◌, any, ◌||◌, length, ◌&&◌,
}
use prism_pipe.Core.Errors.{PipelineError, Thrown, pipeline, other, timeout, server_error}
use prism_pipe.Core.Timeout.{TimeoutBudget, has_time, slice}
use prism_pipe.Core.Canonical.{
  ContentBlock, text, Content, plain, user, CanonicalMessage, CanonicalRequest, CanonicalResponse,
}

pub data ErrorPolicy : Type 0 where
  fail skip default partial : ErrorPolicy

pub record CompositionStep : Type 0 where
  pub name : String
  pub provider : String
  pub input_transform : Option String
  pub on_error : Option ErrorPolicy
  pub timeout : Option ℕ
  pub default_content : Option String
  pub model : Option String
  pub system_prompt : Option String

pub data Status : Type 0 where
  success skipped defaulted error : Status

pub record StepResult : Type 0 where
  pub name : String
  pub provider : String
  pub content : String
  pub duration_ms : ℕ
  pub status : Status
  pub message : Option String

pub record CompositionResult (J : Type 0) : Type 0 where
  pub steps : List StepResult
  pub final_response : Option (CanonicalResponse J)
  pub total_duration_ms : ℕ

pub record TemplateContext (J : Type 0) : Type 0 where
  pub original : CanonicalRequest J
  pub steps : Map StepResult
  pub previous : Option StepResult

-- The texts of the text blocks.
abbrev pub texts : {J : Type 0} → List (ContentBlock J) → List String
texts [] = []
texts (text t ∷ bs) = t ∷ texts bs
texts (b ∷ bs) = texts bs

-- `ts.join('\n')`
abbrev pub join_lines : List String → String
join_lines [] = ""
join_lines (t ∷ []) = t
join_lines (t ∷ u ∷ us) = str_append t (str_append "\n" (join_lines (u ∷ us)))

abbrev pub extract_text : {J : Type 0} → List (ContentBlock J) → String
extract_text content = join_lines (texts content)

-- An absent or empty text is falsy.
abbrev pub present : Option String → Option String
present none = none
present (some t) = if str_eq t "" then none else some t

-- `a ?? b`
abbrev pub or_else {ℓ} : {A : Type ℓ} → Option A → Option A → Option A
or_else none b = b
or_else (some a) b = some a

-- `err instanceof Error ? err.message : String(err)`
abbrev pub message_of : Thrown → String
message_of (pipeline e) = e.message
message_of (other m) = m

abbrev pub result_of : CompositionStep → Status → String → Option String → ℕ → StepResult
result_of step status content message duration = record {
  name = step.name;
  provider = step.provider;
  content = content;
  duration_ms = duration;
  status = status;
  message = message;
}

-- The `switch` of `handleStepError`: the result, and `shouldAbort`.
abbrev pub by_policy : ErrorPolicy → CompositionStep → String → ℕ → StepResult × Bool
by_policy fail step m d = (result_of step error "" (some m) d, true)
by_policy skip step m d = (result_of step skipped "" (some m) d, false)
by_policy default step m d =
    (result_of step defaulted (get_or step.default_content "") (some m) d, false)
by_policy partial step m d = (result_of step error "" (some m) d, true)

unfoldable pub handle_step_error : CompositionStep → Thrown → ℕ → StepResult × Bool
handle_step_error step e duration =
    by_policy (get_or step.on_error fail) step (message_of e) duration

abbrev pub is_partial : Option ErrorPolicy → Bool
is_partial (some partial) = true
is_partial _ = false

abbrev pub is_success : Status → Bool
is_success success = true
is_success _ = false

abbrev pub is_usable : Status → Bool
is_usable success = true
is_usable defaulted = true
is_usable _ = false

-- What a run does to the outside, newest first in a history.
pub data Event : Type 0 where
  clock : Event
  called : String → Event

pub data Answer (J : Type 0) : Type 0 where
  responded : CanonicalResponse J → Answer J
  threw : Thrown → Answer J

pub record Env (J : Type 0) : Type 0 where
  pub now : List Event → ℕ
  pub call : List Event → CanonicalRequest J → String → TimeoutBudget → Answer J
  pub resolve_template : String → TemplateContext J → String
  pub decimal : ℕ → String

-- The variables of a run.
pub record Run (J : Type 0) : Type 0 where
  pub history : List Event
  pub completed : List StepResult
  pub tpl : TemplateContext J

abbrev pub log : {J : Type 0} → Event → Run J → Run J
log e s = record s { history = e ∷ s.history }

-- How the loop ends: by its `return` with the response and the duration, by its `break` with the
-- value of `isPartial`, or with its last round.
pub data End (J : Type 0) : Type 0 where
  returned : CanonicalResponse J → End J
  aborted : Bool → End J
  ran_out : End J

pub data Outcome (J : Type 0) : Type 0 where
  ok : CompositionResult J → Outcome J
  err : PipelineError → Outcome J
