-- ===== src/Core/Pipeline/Onion.antt =====
-- Middleware of src/core/pipeline.ts that work before and after `next()` and catch nothing.
use prism_pipe.Prelude.{
  ℕ, ◌+◌, ◌≡◌, ◌<◌, true, Option, none, some, String, List, [], ◌∷◌, ◌++◌, map, refl, sym, ap,
}
use prism_pipe.Core.Errors.{Thrown}
use prism_pipe.Core.Timeout.{TimeoutBudget, has_time_iff}
use prism_pipe.Core.Pipeline.{
  Script, return, raise, write, await_next, Middleware, Event, entered, Run, Env, Settled,
  as_thrown, step_name, run_body, settle, dispatch,
}

-- `before; await next(); after`
pub record Layer (C : Type 0) : Type 0 where
  pub name : String
  pub before : C → C
  pub after : C → C

abbrev pub resume : {C : Type 0} → (C → C) → Option Thrown → Script C
resume after none = write after return
resume after (some t) = raise t

abbrev pub layer : {C : Type 0} → Layer C → Middleware C
layer l = record { name = l.name; body = write l.before (await_next (resume l.after)) }

none≢some : {A : Type 0} (a : A) → ¬ (none ≡ some a)
none≢some a e = cc

module _ {C : Type 0} where
  -- The run on the way down, behind all the layers, and the index that it has there.
  abbrev pub descend : List (Layer C) → ℕ → Run C → Run C
  descend [] index s = s
  descend (l ∷ ls) index s =
      descend ls (index + 1) (record { ctx = l.before s.ctx; history = entered index ∷ s.history })

  abbrev pub end_index : List (Layer C) → ℕ → ℕ
  end_index [] index = index
  end_index (l ∷ ls) index = end_index ls (index + 1)

  -- The context on the way up: the innermost layer's `after` comes first.
  abbrev pub ascend : List (Layer C) → C → C
  ascend [] ctx = ctx
  ascend (l ∷ ls) ctx = l.after (ascend ls ctx)

  abbrev pub ctx_after : List (Layer C) → Settled C → C
  ctx_after ls (none, s) = ascend ls s.ctx
  ctx_after ls (some e, s) = s.ctx

  ctx_after_nil : (out : Settled C) → out.1.ctx ≡ ctx_after [] out
  ctx_after_nil (none, s) = refl
  ctx_after_nil (some e, s) = refl

  record Surfaces (ls : List (Layer C)) (inner outer : Settled C) : Type 0 where
    outcome : outer.0 ≡ inner.0
    context : outer.1.ctx ≡ ctx_after ls inner

  layer-Surfaces :
      (l : Layer C) (ls : List (Layer C)) (step : String) (down : Run C → Settled C)
      (out inner : Settled C)
      → Surfaces ls inner out
      → Surfaces
          (l ∷ ls)
          inner
          (settle step (run_body down step true (resume l.after (as_thrown out.0)) out.1))
  unfolding settle run_body
  layer-Surfaces l ls step down (none, u) (none, v) h = record {
    outcome = refl;
    context = ap l.after h.context;
  }
  layer-Surfaces l ls step down (none, u) (some e, v) h = absurd (none≢some e h.outcome)
  layer-Surfaces l ls step down (some x, u) (none, v) h = absurd (none≢some x (sym h.outcome))
  layer-Surfaces l ls step down (some x, u) (some e, v) h = record {
    outcome = h.outcome;
    context = h.context;
  }

  dispatch-Surfaces :
      (env : Env) (budget : TimeoutBudget)
      → ((h : List Event) → env.now h < budget.deadline_at)
      → (ls : List (Layer C)) (inner : List (Middleware C)) (index : ℕ) (s : Run C)
      → Surfaces ls
          (dispatch env budget inner (end_index ls index) (descend ls index s))
          (dispatch env budget (map layer ls ++ inner) index s)
  unfolding dispatch run_body
  dispatch-Surfaces env budget early [] inner index s = record {
    outcome = refl;
    context = ctx_after_nil (dispatch env budget inner index s);
  }
  dispatch-Surfaces env budget early (l ∷ ls) inner index s =
      rw ((has_time_iff (env.now s.history) budget).1 (early s.history)) (
        layer-Surfaces l ls (step_name env budget (layer l) index)
          (dispatch env budget (map layer ls ++ inner) (index + 1)) _ _
          (dispatch-Surfaces env budget early ls inner (index + 1)
            (record { ctx = l.before s.ctx; history = entered index ∷ s.history })))

-- Around any inner middleware, within the time budget: layers that work before and after `next()`
-- and catch nothing let the inner outcome through unchanged, an error too. The inner part sees the
-- context as the layers' first halves leave it, outermost first. If it succeeds, their second
-- halves are applied to its context, innermost first; if it fails, none of them is.
pub dispatch-onion :
    {C : Type 0} (env : Env) (budget : TimeoutBudget) (ls : List (Layer C))
    (inner : List (Middleware C)) (index : ℕ) (s : Run C)
    → ((h : List Event) → env.now h < budget.deadline_at)
    → ((dispatch env budget (map layer ls ++ inner) index s).0
        ≡ (dispatch env budget inner (end_index ls index) (descend ls index s)).0)
      × ((dispatch env budget (map layer ls ++ inner) index s).1.ctx
          ≡ ctx_after ls (dispatch env budget inner (end_index ls index) (descend ls index s)))
dispatch-onion env budget ls inner index s early =
    let r = dispatch-Surfaces env budget early ls inner index s in (r.outcome, r.context)
