-- ===== src/Core/Pipeline/Tests.antt =====
-- Runs of the engine of src/core/pipeline.ts, and instances of its theorems.
use prism_pipe.Prelude.{ℕ, ◌+◌, ◌*◌, ◌≡◌, ◌≤◌, none, some, List, [], ◌∷◌, ◌++◌, map, refl, arith}
use prism_pipe.Core.Errors.{other}
use prism_pipe.Core.Timeout.{TimeoutBudget, has_time}
use prism_pipe.Core.Pipeline.{
  return, raise, await_next, Middleware, Run, Env, dispatch, execute, next_twice, wrap,
}
use prism_pipe.Core.Pipeline.Order.{starts, down_to, execute-starts}
use prism_pipe.Core.Pipeline.Onion.{Layer, layer, ctx_after, descend, end_index, dispatch-onion}

abbrev still : Env
still = record { now = λ h. 0; decimal = λ n. "n" }

abbrev budget : TimeoutBudget
budget = record { total_ms = 100; started_at = 0; deadline_at = 100 }

-- Adds one on the way down and doubles on the way up.
abbrev counting : Layer ℕ
counting = record { name = "counting"; before = λ n. n + 1; after = λ n. n * 2 }

abbrev throwing : Middleware ℕ
throwing = record { name = "throwing"; body = raise (other "boom") }

-- Calls `next()` twice and passes on what the second call throws.
abbrev greedy : Middleware ℕ
greedy = record {
  name = "greedy";
  body = await_next λ first. await_next λ second. elim second [ none ↦ return | some t ↦ raise t ];
}

abbrev nested : List (Middleware ℕ)
nested = layer counting ∷ layer counting ∷ []

-- What a test must see through.
engine_runs : Unit {0}
unfolding dispatch execute has_time
engine_runs = tt

execute_tests :
    ((execute still budget nested 5).0 ≡ none)
    × ((execute still budget nested 5).1.ctx ≡ 28)
    × ((execute still budget (layer counting ∷ throwing ∷ []) 5).0
        ≡ some (wrap "throwing" (other "boom")))
    × ((execute still budget (layer counting ∷ throwing ∷ []) 5).1.ctx ≡ 6)
    × ((execute still budget (greedy ∷ layer counting ∷ []) 5).0 ≡ some (next_twice "greedy"))
    × (starts (execute still budget (greedy ∷ layer counting ∷ []) 5).1.history ≡ 1 ∷ 0 ∷ [])
unfolding engine_runs
execute_tests = (refl, refl, refl, refl, refl, refl)

execute-starts_example :
    (count : ℕ) × (count ≤ 2)
    × (starts (execute still budget (greedy ∷ layer counting ∷ []) 5).1.history ≡ down_to 0 count)
execute-starts_example = execute-starts still budget (greedy ∷ layer counting ∷ []) 5

abbrev fresh : Run ℕ
fresh = record { ctx = 5; history = [] }

dispatch-onion_example :
    ((dispatch still budget (map layer (counting ∷ []) ++ throwing ∷ []) 0 fresh).0
      ≡ (dispatch still budget
          (throwing ∷ [])
          (end_index (counting ∷ []) 0)
          (descend (counting ∷ []) 0 fresh)).0)
    × ((dispatch still budget (map layer (counting ∷ []) ++ throwing ∷ []) 0 fresh).1.ctx
        ≡ ctx_after (counting ∷ []) (
            dispatch still budget
              (throwing ∷ [])
              (end_index (counting ∷ []) 0)
              (descend (counting ∷ []) 0 fresh)))
dispatch-onion_example =
    dispatch-onion still budget (counting ∷ []) (throwing ∷ []) 0 fresh (λ h. omega arith)
