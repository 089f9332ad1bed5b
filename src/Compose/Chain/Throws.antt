-- ===== src/Compose/Chain/Throws.antt =====
-- When src/compose/chain.ts throws.
use prism_pipe.Prelude.{
  ℕ, ◌≡◌, ◌↔◌, inl, inr, Bool, true, false, List, [], ◌∷◌, refl, arith, any, Bool-cases,
}
use prism_pipe.Core.Errors.{PipelineError}
use prism_pipe.Core.Timeout.{TimeoutBudget}
use prism_pipe.Core.Canonical.{CanonicalRequest}
use prism_pipe.Compose.Chain.{
  CompositionStep, StepResult, success, is_success, is_usable, Env, Run, End, returned, aborted,
  ran_out, err,
}
use prism_pipe.Compose.Chain.Loop.{loop, conclude, start, execute, all_failed}
use prism_pipe.Compose.Chain.Results.{EndsWith, Shape, loop-results}

-- `completedSteps.some((s) => s.status === 'success' || s.status === 'defaulted')`
abbrev pub some_usable : List StepResult → Bool
some_usable = any (λ (r : StepResult). is_usable r.status)

EndsWith-usable :
    (rs : List StepResult) → EndsWith (λ r. r.status ≡ success) rs → some_usable rs ≡ true
EndsWith-usable [] h = absurd h
EndsWith-usable (r ∷ []) h = rw h refl
EndsWith-usable (r ∷ s ∷ rs) h = ground (arith, EndsWith-usable (s ∷ rs) h.1)

success-usable :
    (rs : List StepResult)
    → any (λ (r : StepResult). is_success r.status) rs ≡ true
    → some_usable rs ≡ true
success-usable [] h = h
success-usable (r ∷ rs) h = ground (arith, success-usable rs)

conclude-throws_iff :
    {J : Type 0} (env : Env J) (original : CanonicalRequest J) (budget : TimeoutBudget) (t : ℕ)
    (out : End J × Run J) (rest : List CompositionStep)
    → Shape out.0 rest out.1.completed
    → ((e : PipelineError) × (conclude env original budget t out ≡ err e))
      ↔ (some_usable out.1.completed ≡ false)
unfolding conclude
conclude-throws_iff env original budget t (returned x, s) rest h =
    (λ p. cc (p.1), λ e. cc (EndsWith-usable s.completed h.1))
conclude-throws_iff env original budget t (aborted p, s) rest h =
    elim (Bool-cases (some_usable s.completed)) [
      | inl good ↦ (λ q. absurd (ground (arith, q.1)), λ e. cc)
      | inr bad ↦ (
        λ q. bad,
        λ e. (all_failed env original budget, ground (arith, success-usable s.completed)),
      )
    ]
conclude-throws_iff env original budget t (ran_out, s) rest h =
    elim (Bool-cases (some_usable s.completed)) [
      | inl good ↦ (λ q. absurd (ground (arith, q.1)), λ e. cc)
      | inr bad ↦ (λ q. bad, λ e. (all_failed env original budget, ground arith))
    ]

-- A chain throws exactly if none of its results is a success or a default: a step whose policy is
-- `fail` aborts the chain, and does not make it throw once an earlier step has succeeded.
pub execute-throws_iff :
    {J : Type 0} (env : Env J) (original : CanonicalRequest J) (budget : TimeoutBudget)
    (steps : List CompositionStep)
    → ((e : PipelineError) × (execute env original budget steps ≡ err e)) ↔ (
        some_usable (loop env original budget steps (start env original budget)).1.completed
        ≡ false)
unfolding execute
execute-throws_iff env original budget steps =
    let (finished, rest, split, named, shape) = loop-results env original budget steps in
    conclude-throws_iff env original budget _
      (loop env original budget steps (start env original budget)) rest shape
