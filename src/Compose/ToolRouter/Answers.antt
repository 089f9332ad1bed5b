-- ===== src/Compose/ToolRouter/Answers.antt =====
-- The results that src/compose/tool-router.ts gives for the tool calls of one response.
use prism_pipe.Prelude.{
  ◌≡◌, refl, ◌∙◌, sym, ap, none, some, true, String, str_append, List, [], ◌∷◌, Option-cases, inl,
  inr, ◌⊎◌,
}
use prism_pipe.Core.Errors.{Thrown}
use prism_pipe.Core.Canonical.{
  ContentBlock, text, image, tool_use, tool_result, thinking, ResultContent, CanonicalRequest,
}
use prism_pipe.Compose.Chain.{present, message_of}
use prism_pipe.Compose.ToolRouter.{
  ToolHandler, ToolRouterConfig, Event, asked_round, asked_tool, loaded, Env, ToolOutcome,
  content_of, raised, tool_calls, validate_handler_path, call_local, execute_tool_call, handler_of,
  answer_call, answer_calls,
}

-- The requests that the loop itself sends to the primary model, newest first.
abbrev pub turns : {J : Type 0} → List (Event J) → List (CanonicalRequest J)
turns [] = []
turns (asked_round req ∷ h) = req ∷ turns h
turns (asked_tool provider req ∷ h) = turns h
turns (loaded path ∷ h) = turns h

module _ {J : Type 0} (env : Env J) (config : ToolRouterConfig) where
  -- `Answered calls h results h'`: made one by one from the history `h` on, the calls get these
  -- results, and leave the history `h'`.
  pub data Answered
      : List (ContentBlock J)
        → List (Event J)
        → List (ContentBlock J)
        → List (Event J)
        → Type 0 where
    none_left : {h : List (Event J)} → Answered [] h [] h
    -- no handler: an error under the id of the call, and nothing is done
    unknown :
        {calls results : List (ContentBlock J)} {h h' : List (Event J)} (id name : String)
        (input : J)
        → handler_of env config name ≡ none
        → Answered calls h results h'
        → Answered
            (tool_use id name input ∷ calls)
            h
            (tool_result id
                (ResultContent.plain
                  (env.stringify_error (str_append "No handler configured for tool: " name)))
                (some true)
              ∷ results)
            h'
    -- the handler gives a text
    gave :
        {calls results : List (ContentBlock J)} {h h' h'' : List (Event J)} (id name : String)
        (input : J) (handler : ToolHandler) (t : String)
        → handler_of env config name ≡ some handler
        → execute_tool_call env handler name input h ≡ (content_of t, h')
        → Answered calls h' results h''
        → Answered
            (tool_use id name input ∷ calls)
            h
            (tool_result id (ResultContent.plain t) none ∷ results)
            h''
    -- the handler throws: its message, marked as an error
    threw :
        {calls results : List (ContentBlock J)} {h h' h'' : List (Event J)} (id name : String)
        (input : J) (handler : ToolHandler) (e : Thrown)
        → handler_of env config name ≡ some handler
        → execute_tool_call env handler name input h ≡ (raised e, h')
        → Answered calls h' results h''
        → Answered
            (tool_use id name input ∷ calls)
            h
            (tool_result id (ResultContent.plain (env.stringify_error (message_of e))) (some true)
              ∷ results)
            h''

  outcome-cases :
      (o : ToolOutcome) → ((t : String) × (o ≡ content_of t)) ⊎ ((e : Thrown) × (o ≡ raised e))
  outcome-cases (content_of t) = inl (t, refl)
  outcome-cases (raised e) = inr (e, refl)

  answer_call-Answered :
      {calls results : List (ContentBlock J)} {h'' : List (Event J)} (id name : String) (input : J)
      (h : List (Event J))
      → Answered calls (answer_call env config id name input h).1 results h''
      → Answered
          (tool_use id name input ∷ calls)
          h
          ((answer_call env config id name input h).0 ∷ results)
          h''
  unfolding answer_call
  answer_call-Answered id name input h rest = elim (Option-cases (handler_of env config name)) [
    | inl missing ↦
        rw (missing, answer_call)
          (unknown id name input missing (rw (missing, answer_call) at rest))
    | inr (handler, known) ↦
        let out = execute_tool_call env handler name input h in
        elim (outcome-cases out.0) [
          | inl (t, same) ↦
              rw (known, same, answer_call)
                (gave id name input handler t known (ap (λ o. (o, out.1)) same)
                  (rw (known, answer_call) at rest))
          | inr (e, same) ↦
              rw (known, same, answer_call)
                (threw id name input handler e known (ap (λ o. (o, out.1)) same)
                  (rw (known, answer_call) at rest))
        ]
  ]

  -- The tool calls of a list are made one after another, and each gets one result under its id, in
  -- the order of the calls: the text of its handler, or, marked as an error, the message of what the
  -- handler throws, or that its tool has no handler. A failed call does not keep the later ones from
  -- being made.
  pub answer_calls-Answered :
      (bs : List (ContentBlock J)) (h : List (Event J))
      → Answered (tool_calls bs) h (answer_calls env config bs h).0 (answer_calls env config bs h).1
  unfolding answer_calls
  answer_calls-Answered [] h = none_left
  answer_calls-Answered (tool_use id name input ∷ bs) h =
      answer_call-Answered id name input h
        (answer_calls-Answered bs (answer_call env config id name input h).1)
  answer_calls-Answered (text t ∷ bs) h = answer_calls-Answered bs h
  answer_calls-Answered (image s ∷ bs) h = answer_calls-Answered bs h
  answer_calls-Answered (tool_result id c e ∷ bs) h = answer_calls-Answered bs h
  answer_calls-Answered (thinking t ∷ bs) h = answer_calls-Answered bs h

  call_local-turns :
      (path name : String) (input : J) (h : List (Event J))
      → turns (call_local env path name input h).1 ≡ turns h
  call_local-turns path name input h = elim (Option-cases (validate_handler_path env path)) [
    | inl valid ↦ rw (valid, turns) refl
    | inr (t, invalid) ↦ rw (invalid, turns) refl
  ]

  execute_tool_call-turns :
      (handler : ToolHandler) (name : String) (input : J) (h : List (Event J))
      → turns (execute_tool_call env handler name input h).1 ≡ turns h
  unfolding execute_tool_call
  execute_tool_call-turns handler name input h = elim (Option-cases (present handler.provider)) [
    | inr (provider, named) ↦ rw (named, turns) refl
    | inl not_named ↦
        rw (not_named, turns)
          (elim (Option-cases (present handler.handler)) [
            | inr (path, given) ↦ rw (given, turns) (call_local-turns path name input h)
            | inl not_given ↦ rw (not_given, turns) refl
          ])
  ]

  -- Tool calls are not requests of the loop.
  pub Answered-turns :
      {calls results : List (ContentBlock J)} {h h' : List (Event J)}
      → Answered calls h results h'
      → turns h' ≡ turns h
  Answered-turns none_left = refl
  Answered-turns (unknown id name input missing rest) = Answered-turns rest
  Answered-turns (gave {h = h} id name input handler t known out rest) =
      Answered-turns rest
      ∙ sym (ap (λ (o : ToolOutcome × List (Event J)). turns o.1) out)
      ∙ execute_tool_call-turns handler name input h
  Answered-turns (threw {h = h} id name input handler e known out rest) =
      Answered-turns rest
      ∙ sym (ap (λ (o : ToolOutcome × List (Event J)). turns o.1) out)
      ∙ execute_tool_call-turns handler name input h
