-- ===== src/Auth/Costs.antt =====
-- `TenantCostTracker` of src/auth/tenant.ts. Money is in natural numbers of a smallest unit, and the
-- key of a month is the text that `monthKey` gives at the time of the call.
use prism_pipe.Prelude.{
  ℕ, ◌+◌, ◌≡◌, ◌≤◌, ◌↔◌, Bool, true, false, Option, none, some, String, List, [], ◌∷◌, Map, lookup,
  insert, lookup-insert, get_or, str_eq, ◌&&◌, leb, if◌then◌else◌, arith, eq_iff,
}

abbrev pub Costs : Type 0
Costs = Map (Map ℕ)

-- `record`
unfoldable pub record_cost : String → String → ℕ → Costs → Costs
record_cost month tenant cost costs =
    let months = get_or (lookup tenant costs) [] in
    insert tenant (insert month (get_or (lookup month months) 0 + cost) months) costs

-- `getCurrentMonthCost`
unfoldable pub month_cost : String → String → Costs → ℕ
month_cost month tenant costs = get_or (lookup month (get_or (lookup tenant costs) [])) 0

unfoldable pub over_budget : String → String → Option ℕ → Costs → Bool
unfolding month_cost
over_budget month tenant budget costs = elim budget [
  | none ↦ false
  | some limit ↦ leb limit (month_cost month tenant costs)
]

pub record Spending : Type 0 where
  pub month : String
  pub tenant : String
  pub cost : ℕ

unfoldable pub record_all : List Spending → Costs → Costs
unfolding record_cost
record_all [] costs = costs
record_all (s ∷ ss) costs = record_all ss (record_cost s.month s.tenant s.cost costs)

-- What a tenant has spent in a month.
abbrev pub total : String → String → List Spending → ℕ
total month tenant [] = 0
total month tenant (s ∷ ss) =
    let rest = total month tenant ss in
    if str_eq month s.month && str_eq tenant s.tenant then s.cost + rest else rest

month_cost-record_cost :
    (month tenant : String) (s : Spending) (costs : Costs)
    → month_cost month tenant (record_cost s.month s.tenant s.cost costs)
      ≡ total month tenant (s ∷ []) + month_cost month tenant costs
unfolding month_cost record_cost
month_cost-record_cost month tenant s costs =
    let months = get_or (lookup s.tenant costs) [] in
    let new = get_or (lookup s.month months) 0 + s.cost in
    ground (
      arith,
      lookup-insert costs s.tenant tenant (insert s.month new months),
      lookup-insert months s.month month new,
      eq_iff month s.month,
      eq_iff tenant s.tenant,
    )

month_cost-record_all :
    (month tenant : String) (ss : List Spending) (costs : Costs)
    → month_cost month tenant (record_all ss costs)
      ≡ total month tenant ss + month_cost month tenant costs
unfolding record_all
month_cost-record_all month tenant [] costs = omega arith
month_cost-record_all month tenant (s ∷ ss) costs = ground (
  arith,
  month_cost-record_all month tenant ss (record_cost s.month s.tenant s.cost costs),
  month_cost-record_cost month tenant s costs,
)

month_cost-total :
    (month tenant : String) (ss : List Spending)
    → month_cost month tenant (record_all ss []) ≡ total month tenant ss
unfolding month_cost lookup
month_cost-total month tenant ss = omega (arith, month_cost-record_all month tenant ss [])

-- The month's cost of a tenant is the sum of what was recorded for it in that month since the tracker
-- was made, and the tenant is over a budget exactly when this sum has reached the budget.
pub over_budget_iff :
    (month tenant : String) (ss : List Spending) (budget : ℕ)
    → (month_cost month tenant (record_all ss []) ≡ total month tenant ss)
      × (over_budget month tenant (some budget) (record_all ss []) ≡ true
          ↔ (budget ≤ total month tenant ss))
unfolding over_budget
over_budget_iff month tenant ss budget = ground (arith, month_cost-total month tenant ss)
