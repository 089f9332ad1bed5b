-- ===== src/Core/Pipeline/Order.antt =====
-- The order in which src/core/pipeline.ts starts the middleware.
use mathlib.Core.List.{append_assoc, append-nil}
use prism_pipe.Prelude.{
  ℕ, zero, suc, ◌+◌, ◌≡◌, ◌≤◌, true, false, Option, none, some, String, List, [], ◌∷◌, ◌++◌, refl,
  sym, ◌∙◌, arith, length, Bool-cases, inl, inr,
}
use prism_pipe.Core.Errors.{Thrown, pipeline}
use prism_pipe.Core.Timeout.{TimeoutBudget, has_time}
use prism_pipe.Core.Pipeline.{
  Script, return, raise, write, read, await_next, Middleware, Event, entered, Run, Env, Settled,
  as_thrown, next_twice, step_name, run_body, settle, dispatch, execute, log,
}

-- The middleware started, newest first.
abbrev pub starts : List Event → List ℕ
starts [] = []
starts (entered i ∷ h) = i ∷ starts h
starts (e ∷ h) = starts h

-- `first + count - 1, …, first + 1, first`
abbrev pub down_to : ℕ → ℕ → List ℕ
down_to first zero = []
down_to first (suc count) = down_to (first + 1) count ++ first ∷ []

-- At most `most` middleware were started, one after the other from `first` on.
pub record Started (first most : ℕ) (before after : List Event) : Type 0 where
  pub count : ℕ
  pub bounded : count ≤ most
  pub sequence : starts after ≡ down_to first count ++ starts before

Started-none :
    (first most : ℕ) (before after : List Event)
    → starts after ≡ starts before
    → Started first most before after
Started-none first most before after e = record { count = 0; bounded = omega arith; sequence = e }

module _ {C : Type 0} (down : Run C → Settled C) (first most : ℕ)
    (rule : (s : Run C) → Started first most s.history (down s).1.history) (step : String) where
  -- Behind the first call `next()` starts nothing.
  called_starts :
      (k : Script C) (s : Run C) → starts (run_body down step true k s).1.history ≡ starts s.history
  unfolding run_body
  called_starts return s = refl
  called_starts (raise t) s = refl
  called_starts (write f k) s = called_starts k (record s { ctx = f s.ctx })
  called_starts (read k) s = called_starts (k s.ctx) s
  called_starts (await_next k) s = called_starts (k (some (pipeline (next_twice step)))) s

  run_body-Started :
      (k : Script C) (s : Run C)
      → Started first most s.history (run_body down step false k s).1.history
  unfolding run_body
  run_body-Started return s = Started-none first most _ _ refl
  run_body-Started (raise t) s = Started-none first most _ _ refl
  run_body-Started (write f k) s = run_body-Started k (record s { ctx = f s.ctx })
  run_body-Started (read k) s = run_body-Started (k s.ctx) s
  run_body-Started (await_next k) s =
      let r = rule s in
      record {
        count = r.count;
        bounded = r.bounded;
        sequence = called_starts (k (as_thrown (down s).0)) (down s).1 ∙ r.sequence;
      }

starts-settle :
    {C : Type 0} (step : String) (out : Option Thrown × Run C)
    → starts (settle step out).1.history ≡ starts out.1.history
unfolding settle
starts-settle step (none, s) = refl
starts-settle step (some t, s) = refl

module _ {C : Type 0} (env : Env) (budget : TimeoutBudget) where
  dispatch-Started :
      (mws : List (Middleware C)) (index : ℕ) (s : Run C)
      → Started index (length mws) s.history (dispatch env budget mws index s).1.history
  unfolding dispatch
  dispatch-Started [] index s = Started-none index 0 _ _ (ground arith)
  dispatch-Started (mw ∷ mws) index s = elim (Bool-cases (has_time (env.now s.history) budget)) [
    | inr late ↦ rw late (Started-none index (length (mw ∷ mws)) _ _ refl)
    | inl early ↦
        let step = step_name env budget mw index in
        let down = dispatch env budget mws (index + 1) in
        let out = run_body down step false mw.body (log (entered index) s) in
        let r =
          run_body-Started down (index + 1) (length mws) (dispatch-Started mws (index + 1)) step
            mw.body (log (entered index) s) in
        rw early (record {
          count = suc r.count;
          bounded = omega (arith, r.bounded);
          sequence =
              starts-settle step out
              ∙ r.sequence
              ∙ sym (append_assoc (down_to (index + 1) r.count) (index ∷ []) (starts s.history));
        })
  ]

-- Whatever the middleware do, also if they call `next()` more than once, catch errors or throw: an
-- execution starts an initial part of the list in the list's order, and each of it once.
pub execute-starts :
    {C : Type 0} (env : Env) (budget : TimeoutBudget) (mws : List (Middleware C)) (ctx : C)
    → (count : ℕ) × (count ≤ length mws)
      × (starts (execute env budget mws ctx).1.history ≡ down_to 0 count)
unfolding execute
execute-starts env budget mws ctx =
    let r = dispatch-Started env budget mws 0 (record { ctx = ctx; history = [] }) in
    (r.count, r.bounded, r.sequence ∙ append-nil (down_to 0 r.count))
