-- ===== src/Compose/Chain/Results.antt =====
-- What src/compose/chain.ts returns.
use mathlib.Core.List.{append_assoc, append-nil}
use mathlib.Core.Path.{ap₂}
use prism_pipe.Prelude.{
  ℕ, ◌≡◌, ◌≢◌, ◌⊎◌, inl, inr, Bool, true, false, Option, none, some, String, List, [], ◌∷◌, ◌++◌,
  refl, sym, ap, ◌∙◌, arith, All, map, Bool-cases, Option-cases, if◌then◌else◌, get_or, ◌-◌,
}
use prism_pipe.Core.Errors.{Thrown}
use prism_pipe.Core.Timeout.{TimeoutBudget, has_time, slice}
use prism_pipe.Core.Canonical.{CanonicalRequest, CanonicalResponse}
use prism_pipe.Compose.Chain.{
  CompositionStep, StepResult, success, error, ErrorPolicy, fail, skip, default, partial,
  handle_step_error, is_partial, Env, Run, End, by_policy, message_of, clock, called, Answer,
  responded, threw, returned, aborted, ran_out,
}
use prism_pipe.Compose.Chain.Loop.{
  try_step, round, loop, start, is_empty, exhausted, build_step_request,
}

abbrev pub NoError : StepResult → Type 0
NoError r = r.status ≢ error

-- The last result: an error where the loop is aborted, a success where it returns, and no error
-- where it goes on.
abbrev pub Fits : {J : Type 0} → Bool → Option (End J) → StepResult → Type 0
Fits is_last none r = NoError r
Fits is_last (some (returned response)) r = (r.status ≡ success) × (is_last ≡ true)
Fits is_last (some (aborted p)) r = r.status ≡ error
Fits is_last (some ran_out) r = ⊥

-- One round adds the result of its step.
record Added {J : Type 0} (is_last : Bool) (step : CompositionStep) (s : Run J)
    (out : Option (End J) × Run J) : Type 0 where
  result : StepResult
  named : result.name ≡ step.name
  appended : out.1.completed ≡ s.completed ++ result ∷ []
  fits : Fits is_last out.0 result

policy-Fits :
    (J : Type 0) (is_last : Bool) (p : ErrorPolicy) (step : CompositionStep) (m : String) (d : ℕ)
    (b : Bool)
    → ((by_policy p step m d).0.name ≡ step.name)
      × Fits {J = J} is_last
          (if (by_policy p step m d).1 then some (aborted b) else none)
          (by_policy p step m d).0
policy-Fits J is_last fail step m d b = (refl, refl)
policy-Fits J is_last skip step m d b = (refl, λ e. cc)
policy-Fits J is_last default step m d b = (refl, λ e. cc)
policy-Fits J is_last partial step m d b = (refl, refl)

Answer-cases :
    {J : Type 0} (a : Answer J)
    → ((r : CanonicalResponse J) × (a ≡ responded r)) ⊎ ((t : Thrown) × (a ≡ threw t))
Answer-cases (responded r) = inl (r, refl)
Answer-cases (threw t) = inr (t, refl)

last-Fits :
    {J : Type 0} (is_last : Bool) (response : CanonicalResponse J) (r : StepResult)
    → r.status ≡ success
    → Fits is_last (if is_last then some (returned response) else none) r
last-Fits true response r e = (e, refl)
last-Fits false response r e = λ f. cc

module _ {J : Type 0} (env : Env J) (original : CanonicalRequest J) (budget : TimeoutBudget) where
  try_step-Added :
      (started : ℕ) (is_last : Bool) (step : CompositionStep) (s : Run J)
      → Added is_last step s (try_step env original budget started is_last step s)
  unfolding try_step handle_step_error
  try_step-Added started is_last step s =
      elim (Answer-cases (env.call (clock ∷ clock ∷ s.history) request step.provider step_budget)) [
        | inl (response, e) ↦
            rw (e, try_step)
              (record {
                result = _;
                named = refl;
                appended = refl;
                fits = last-Fits is_last response _ refl;
              })
        | inr (t, e) ↦
            let fits =
              policy-Fits J is_last (get_or step.on_error fail) step (message_of t)
                (env.now (called step.provider ∷ clock ∷ clock ∷ s.history) - started)
                (is_partial step.on_error) in
            rw (e, try_step) (record { result = _; named = fits.0; appended = refl; fits = fits.1 })
      ]
    where
      request : CanonicalRequest J
      request = build_step_request env original budget step s.tpl

      step_budget : TimeoutBudget
      step_budget = slice (env.now s.history) (env.now (clock ∷ s.history)) step.timeout budget

  round-Added :
      (is_last : Bool) (step : CompositionStep) (s : Run J)
      → Added is_last step s (round env original budget is_last step s)
  unfolding round handle_step_error
  round-Added is_last step s = elim (Bool-cases (has_time (env.now (clock ∷ s.history)) budget)) [
    | inl early ↦ rw early (
        let a =
          try_step-Added (env.now s.history) is_last step
            (record s { history = clock ∷ clock ∷ s.history }) in
        record { result = a.result; named = a.named; appended = a.appended; fits = a.fits })
    | inr late ↦
        let fits =
          policy-Fits J is_last (get_or step.on_error fail) step
            (message_of (exhausted env original budget step)) 0 (is_partial step.on_error) in
        rw late (record { result = _; named = fits.0; appended = refl; fits = fits.1 })
  ]

abbrev pub EndsWith : (StepResult → Type 0) → List StepResult → Type 0
EndsWith P [] = ⊥
EndsWith P (r ∷ []) = P r
EndsWith P (r ∷ s ∷ rs) = NoError r × EndsWith P (s ∷ rs)

-- How the results of a run end: with the success of the last step, with the error that aborts the
-- chain and leaves the steps `rest`, or behind the last step with no error at all.
abbrev pub Shape : {J : Type 0} → End J → List CompositionStep → List StepResult → Type 0
Shape (returned response) rest rs = (rest ≡ []) × EndsWith (λ r. r.status ≡ success) rs
Shape (aborted p) rest rs = EndsWith (λ r. r.status ≡ error) rs
Shape ran_out rest rs = (rest ≡ []) × All NoError rs

EndsWith-cons :
    (P : StepResult → Type 0) (r : StepResult) (rs : List StepResult)
    → NoError r
    → EndsWith P rs
    → EndsWith P (r ∷ rs)
EndsWith-cons P r [] n h = absurd h
EndsWith-cons P r (s ∷ rs) n h = (n, h)

Shape-cons :
    {J : Type 0} (end : End J) (rest : List CompositionStep) (r : StepResult) (rs : List StepResult)
    → NoError r
    → Shape end rest rs
    → Shape end rest (r ∷ rs)
Shape-cons (returned x) rest r rs n h = (h.0, EndsWith-cons _ r rs n h.1)
Shape-cons (aborted p) rest r rs n h = EndsWith-cons _ r rs n h
Shape-cons ran_out rest r rs n h = (h.0, (n, h.1))

Shape-single :
    {J : Type 0} (end : End J) (rest : List CompositionStep) (r : StepResult)
    → Fits (is_empty rest) (some end) r
    → Shape end rest (r ∷ [])
Shape-single (returned x) [] r f = (refl, f.0)
Shape-single (returned x) (s ∷ rest) r f = absurd (ground (arith, f.1))
Shape-single (aborted p) rest r f = f
Shape-single ran_out rest r f = absurd f

abbrev pub step_names : List CompositionStep → List String
step_names = map (λ (s : CompositionStep). s.name)

abbrev pub result_names : List StepResult → List String
result_names = map (λ (r : StepResult). r.name)

-- The loop makes the results of the steps `finished`, and does not come to the steps `rest`.
pub record Progress {J : Type 0} (steps : List CompositionStep) (before : List StepResult)
    (out : End J × Run J) : Type 0 where
  pub finished : List CompositionStep
  pub rest : List CompositionStep
  pub results : List StepResult
  pub split : steps ≡ finished ++ rest
  pub named : result_names results ≡ step_names finished
  pub appended : out.1.completed ≡ before ++ results
  pub shape : Shape out.0 rest results

module _ {J : Type 0} (env : Env J) (original : CanonicalRequest J) (budget : TimeoutBudget) where
  loop-Progress :
      (steps : List CompositionStep) (s : Run J)
      → Progress steps s.completed (loop env original budget steps s)
  unfolding loop
  loop-Progress [] s = record {
    finished = [];
    rest = [];
    results = [];
    split = refl;
    named = refl;
    appended = sym (append-nil s.completed);
    shape = (refl, tt);
  }
  loop-Progress (step ∷ steps) s =
      let a = round-Added env original budget (is_empty steps) step s in
      let out = round env original budget (is_empty steps) step s in
      elim (Option-cases out.0) [
        | inr (end, e) ↦
            rw (e, loop)
              (record {
                finished = step ∷ [];
                rest = steps;
                results = a.result ∷ [];
                split = refl;
                named = ap (λ n. n ∷ []) a.named;
                appended = a.appended;
                shape = Shape-single end steps a.result (rw e at a.fits);
              })
        | inl e ↦
            let p = loop-Progress steps out.1 in
            rw (e, loop)
              (record {
                finished = step ∷ p.finished;
                rest = p.rest;
                results = a.result ∷ p.results;
                split = ap (◌∷◌ step) p.split;
                named = ap₂ ◌∷◌ a.named p.named;
                appended =
                    p.appended
                    ∙ ap (λ x. x ++ p.results) a.appended
                    ∙ append_assoc s.completed (a.result ∷ []) p.results;
                shape =
                    Shape-cons (loop env original budget steps out.1).0 p.rest a.result p.results
                      (rw e at a.fits) p.shape;
              })
      ]

-- The results of a run are those of an initial part of the steps, in their order, and none but the
-- last can be an error. If the chain returns a final response, or comes to its end without one, the
-- part is the whole list; in the first case the last result is a success, in the second no result
-- is an error. If the chain is aborted, the last result is an error.
pub loop-results :
    {J : Type 0} (env : Env J) (original : CanonicalRequest J) (budget : TimeoutBudget)
    (steps : List CompositionStep)
    → let out = loop env original budget steps (start env original budget) in
      (finished : List CompositionStep) × (rest : List CompositionStep) × (steps ≡ finished ++ rest)
      × (result_names out.1.completed ≡ step_names finished)
      × Shape out.0 rest out.1.completed
loop-results env original budget steps =
    let p = loop-Progress env original budget steps (start env original budget) in
    (p.finished, p.rest, p.split, ap result_names p.appended ∙ p.named, rw p.appended p.shape)
