-- ===== src/Compose/ToolRouter/Rounds.antt =====
-- The rounds of src/compose/tool-router.ts.
use prism_pipe.Prelude.{
  ℕ, zero, suc, ◌+◌, ◌≡◌, ◌≢◌, ◌⊎◌, ◌≤◌, refl, ap, subst, true, false, List, [], ◌∷◌, ◌++◌, length,
  All, arith, inl, inr,
}
use prism_pipe.Core.Errors.{Thrown, pipeline}
use prism_pipe.Core.Canonical.{
  ContentBlock, text, image, tool_use, tool_result, thinking, blocks, assistant, tool,
  CanonicalRequest, CanonicalResponse,
}
use prism_pipe.Compose.ToolRouter.{
  ToolRouterConfig, Event, asked_round, Env, Answer, responded, threw, Outcome, ok, err, tool_calls,
  is_empty, answer_calls, with_results, exceeded, rounds_of, rounds, execute,
}
use prism_pipe.Compose.ToolRouter.Loads.{loads, IsLocal, Answered-loads}
use prism_pipe.Compose.ToolRouter.Answers.{turns, Answered, answer_calls-Answered, Answered-turns}

-- The request with a response and the results for its calls behind its messages.
abbrev pub extended :
    {J : Type 0}
    → CanonicalRequest J
    → List (ContentBlock J)
    → List (ContentBlock J)
    → CanonicalRequest J
extended req content results = record req {
  messages =
      req.messages
      ++ (record { role = assistant; content = blocks content }
          ∷ record { role = tool; content = blocks results }
          ∷ []);
}

module _ {J : Type 0} (env : Env J) (config : ToolRouterConfig) where
  -- `Dialogue n req h o h'`: with `n` rounds left, a run with the request `req` goes from the history
  -- `h` to `h'`, and ends with `o`. The primary model's answers are those of the environment.
  pub data Dialogue
      : ℕ → CanonicalRequest J → List (Event J) → Outcome J → List (Event J) → Type 0 where
    -- no round is left
    spent :
        {req : CanonicalRequest J} {h : List (Event J)}
        → Dialogue zero req h (err (pipeline (exceeded env config))) h
    -- the model throws
    broken :
        {n : ℕ} {req : CanonicalRequest J} {h : List (Event J)} {t : Thrown}
        → env.call h config.primary req ≡ threw t
        → Dialogue (suc n) req h (err t) (asked_round req ∷ h)
    -- the model responds without tool calls
    finished :
        {n : ℕ} {req : CanonicalRequest J} {h : List (Event J)} {r : CanonicalResponse J}
        → env.call h config.primary req ≡ responded r
        → tool_calls r.content ≡ []
        → Dialogue (suc n) req h (ok r) (asked_round req ∷ h)
    -- the model responds with tool calls, which are answered, and a round follows
    continued :
        {n : ℕ} {req : CanonicalRequest J} {h h' h'' : List (Event J)} {r : CanonicalResponse J}
        (results : List (ContentBlock J)) {o : Outcome J}
        → env.call h config.primary req ≡ responded r
        → tool_calls r.content ≢ []
        → Answered env config (tool_calls r.content) (asked_round req ∷ h) results h'
        → Dialogue n (extended req r.content results) h' o h''
        → Dialogue (suc n) req h o h''

  Dialogue-bounded :
      {n : ℕ} {req : CanonicalRequest J} {h h' : List (Event J)} {o : Outcome J}
      → Dialogue n req h o h'
      → length (turns h') ≤ length (turns h) + n
  Dialogue-bounded spent = omega arith
  Dialogue-bounded (broken e) = omega arith
  Dialogue-bounded (finished e e') = omega arith
  Dialogue-bounded (continued results e some_call answered d) =
      omega (arith, Dialogue-bounded d, ap length (Answered-turns env config answered))

  Dialogue-loads :
      {n : ℕ} {req : CanonicalRequest J} {h h' : List (Event J)} {o : Outcome J}
      → Dialogue n req h o h'
      → All (IsLocal env) (loads h)
      → All (IsLocal env) (loads h')
  Dialogue-loads spent a = a
  Dialogue-loads (broken e) a = a
  Dialogue-loads (finished e e') a = a
  Dialogue-loads (continued results e some_call answered d) a =
      Dialogue-loads d (Answered-loads env config answered a)

  tool_calls-idempotent : (bs : List (ContentBlock J)) → tool_calls (tool_calls bs) ≡ tool_calls bs
  tool_calls-idempotent [] = refl
  tool_calls-idempotent (tool_use id name input ∷ bs) =
      ap (λ rest. tool_use id name input ∷ rest) (tool_calls-idempotent bs)
  tool_calls-idempotent (text t ∷ bs) = tool_calls-idempotent bs
  tool_calls-idempotent (image s ∷ bs) = tool_calls-idempotent bs
  tool_calls-idempotent (tool_result id c e ∷ bs) = tool_calls-idempotent bs
  tool_calls-idempotent (thinking t ∷ bs) = tool_calls-idempotent bs

  Answer-cases :
      (a : Answer J)
      → ((t : Thrown) × (a ≡ threw t)) ⊎ ((r : CanonicalResponse J) × (a ≡ responded r))
  Answer-cases (threw t) = inl (t, refl)
  Answer-cases (responded r) = inr (r, refl)

  calls-cases :
      (bs : List (ContentBlock J))
      → ((is_empty bs ≡ true) × (bs ≡ [])) ⊎ ((is_empty bs ≡ false) × (bs ≢ []))
  calls-cases [] = inl (refl, refl)
  calls-cases (b ∷ bs) = inr (refl, ground arith)

  rounds-Dialogue :
      (n : ℕ) (req : CanonicalRequest J) (h : List (Event J))
      → Dialogue n req h (rounds env config n req h).0 (rounds env config n req h).1
  unfolding rounds
  rounds-Dialogue zero req h = spent
  rounds-Dialogue (suc n) req h = elim (Answer-cases (env.call h config.primary req)) [
    | inl (t, failed) ↦ rw (failed, rounds) (broken failed)
    | inr (r, response) ↦
        rw (response, rounds)
          (elim (calls-cases (tool_calls r.content)) [
            | inl (none_left, no_calls) ↦ rw (none_left, rounds) (finished response no_calls)
            | inr (some_left, calls) ↦
                let bs = tool_calls r.content in
                let out = answer_calls env config bs (asked_round req ∷ h) in
                let answered =
                  subst (λ cs. Answered env config cs (asked_round req ∷ h) out.0 out.1)
                    (tool_calls-idempotent r.content)
                    (answer_calls-Answered env config bs (asked_round req ∷ h)) in
                rw (some_left, rounds)
                  (continued out.0 response calls answered
                    (rounds-Dialogue n (with_results env config req r.content out.0) out.1))
          ])
  ]

  -- A run sends its request to the primary model, and as long as a response of that model has tool
  -- calls, and at most the configured number of times in all, the request again with the whole
  -- response and one result for each of its calls behind the messages. It returns the first response
  -- without tool calls, ends with what the model throws, or, after the configured number of
  -- requests, with the error for too many rounds. Requests for tool calls do not count, also where
  -- they go to the primary model. Every module that it imports for a tool call has a relative path,
  -- which `path.resolve` turns into a text that begins with the working directory.
  pub execute-Dialogue :
      (req : CanonicalRequest J)
      → Dialogue (rounds_of config) req [] (execute env config req).0 (execute env config req).1
        × (length (turns (execute env config req).1) ≤ rounds_of config)
        × All (IsLocal env) (loads (execute env config req).1)
  unfolding execute
  execute-Dialogue req =
      let d = rounds-Dialogue (rounds_of config) req [] in
      (d, omega (arith, Dialogue-bounded d), Dialogue-loads d tt)
