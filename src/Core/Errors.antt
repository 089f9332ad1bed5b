-- ===== src/Core/Errors.antt =====
-- src/core/types.ts: the error classes and `PipelineError`; its `cause` is left out.
use prism_pipe.Prelude.{ℕ, Bool, Option, String}

pub data ErrorClass : Type 0 where
  auth rate_limit timeout server_error invalid_request : ErrorClass
  content_filter model_not_found overloaded network unknown : ErrorClass

pub record PipelineError : Type 0 where
  pub message : String
  pub code : ErrorClass
  pub step : Option String
  pub status_code : ℕ
  pub retryable : Bool

-- What a `catch` receives: a `PipelineError`, or any other value, with the text that
-- `err.message` or `String(err)` gives for it.
pub data Thrown : Type 0 where
  pipeline : PipelineError → Thrown
  other : String → Thrown
