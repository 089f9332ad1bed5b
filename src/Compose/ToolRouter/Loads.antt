-- ===== src/Compose/ToolRouter/Loads.antt =====
-- Which modules src/compose/tool-router.ts imports for tool calls.
use prism_pipe.Prelude.{
  ◌≡◌, subst, true, none, String, List, [], ◌∷◌, All, Option-cases, inl, inr, ◌⊎◌, arith,
}
use package.text.Mathlib.Text.{starts_with}
use prism_pipe.Core.Canonical.{ContentBlock}
use prism_pipe.Compose.Chain.{present}
use prism_pipe.Compose.ToolRouter.{
  ToolHandler, ToolRouterConfig, Event, asked_round, asked_tool, loaded, Env, ToolOutcome,
  validate_handler_path, call_local, execute_tool_call,
}
use prism_pipe.Compose.ToolRouter.Answers.{Answered, none_left, unknown, gave, threw}

-- The paths of the imported modules, newest first.
abbrev pub loads : {J : Type 0} → List (Event J) → List String
loads [] = []
loads (asked_round req ∷ h) = loads h
loads (asked_tool provider req ∷ h) = loads h
loads (loaded path ∷ h) = path ∷ loads h

module _ {J : Type 0} (env : Env J) where
  -- The path is relative, and resolves to a text that begins with the working directory.
  abbrev pub IsLocal : String → Type 0
  IsLocal path =
      ((starts_with path "./" ≡ true) ⊎ (starts_with path "../" ≡ true))
      × (starts_with (env.resolve path) env.cwd ≡ true)

  validate_handler_path-IsLocal :
      (path : String) → validate_handler_path env path ≡ none → IsLocal path
  unfolding validate_handler_path
  validate_handler_path-IsLocal path valid = ground arith

  call_local-loads :
      (path name : String) (input : J) (h : List (Event J))
      → All IsLocal (loads h)
      → All IsLocal (loads (call_local env path name input h).1)
  call_local-loads path name input h a = elim (Option-cases (validate_handler_path env path)) [
    | inl valid ↦ rw (valid, loads) (validate_handler_path-IsLocal path valid, a)
    | inr (t, invalid) ↦ rw (invalid, loads) a
  ]

  execute_tool_call-loads :
      (handler : ToolHandler) (name : String) (input : J) (h : List (Event J))
      → All IsLocal (loads h)
      → All IsLocal (loads (execute_tool_call env handler name input h).1)
  unfolding execute_tool_call
  execute_tool_call-loads handler name input h a = elim (Option-cases (present handler.provider)) [
    | inr (provider, named) ↦ rw (named, loads) a
    | inl not_named ↦
        rw (not_named, loads)
          (elim (Option-cases (present handler.handler)) [
            | inr (path, given) ↦ rw (given, loads) (call_local-loads path name input h a)
            | inl not_given ↦ rw (not_given, loads) a
          ])
  ]

  pub Answered-loads :
      (config : ToolRouterConfig) {calls results : List (ContentBlock J)} {h h' : List (Event J)}
      → Answered env config calls h results h'
      → All IsLocal (loads h)
      → All IsLocal (loads h')
  Answered-loads config none_left a = a
  Answered-loads config (unknown id name input missing rest) a = Answered-loads config rest a
  Answered-loads config (gave {h = h} id name input handler t known out rest) a =
      Answered-loads config rest (
        subst (λ (o : ToolOutcome × List (Event J)). All IsLocal (loads o.1)) out
          (execute_tool_call-loads handler name input h a))
  Answered-loads config (threw {h = h} id name input handler e known out rest) a =
      Answered-loads config rest (
        subst (λ (o : ToolOutcome × List (Event J)). All IsLocal (loads o.1)) out
          (execute_tool_call-loads handler name input h a))
