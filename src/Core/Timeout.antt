-- ===== src/Core/Timeout.antt =====
-- src/core/timeout.ts: the timeout budget. `now` is what `Date.now()` returns in the call; the
-- abort signal and its timer are left out.
use prism_pipe.Prelude.{
  ℕ, ◌+◌, ◌-◌, ◌≡◌, ◌<◌, ◌≤◌, Bool, true, false, Option, none, some, min, arith, ltb, ◌==◌,
  if◌then◌else◌, ◌↔◌,
}

pub record TimeoutBudget : Type 0 where
  pub total_ms : ℕ
  pub started_at : ℕ
  pub deadline_at : ℕ

unfoldable pub create_timeout_budget : ℕ → ℕ → TimeoutBudget
create_timeout_budget now total_ms = record {
  total_ms = total_ms;
  started_at = now;
  deadline_at = now + total_ms;
}

-- `Math.max(0, deadlineAt - Date.now())`: subtraction on ℕ stops at 0.
unfoldable pub remaining : ℕ → TimeoutBudget → ℕ
remaining now b = b.deadline_at - now

unfoldable pub has_time : ℕ → TimeoutBudget → Bool
has_time now b = ltb now b.deadline_at

-- A `maxMs` of 0 is falsy, and so counts as absent.
abbrev slice_ms : Option ℕ → ℕ → ℕ
slice_ms none rem = rem
slice_ms (some max_ms) rem = if max_ms == 0 then rem else min max_ms rem

-- `slice`: `now` is the time of `remaining`, `later` that of the new budget's start.
unfoldable pub slice : ℕ → ℕ → Option ℕ → TimeoutBudget → TimeoutBudget
unfolding remaining create_timeout_budget
slice now later max_ms b = create_timeout_budget later (slice_ms max_ms (remaining now b))

pub has_time_iff : (now : ℕ) (b : TimeoutBudget) → (has_time now b ≡ true) ↔ (now < b.deadline_at)
unfolding has_time
has_time_iff now b = ground arith

pub has_time-false : (now : ℕ) (b : TimeoutBudget) → has_time now b ≡ false → b.deadline_at ≤ now
unfolding has_time
has_time-false now b h = ground arith

-- A budget has time left exactly while some remains.
pub has_time-remaining :
    (now : ℕ) (b : TimeoutBudget) → (has_time now b ≡ true) ↔ (0 < remaining now b)
unfolding has_time remaining
has_time-remaining now b = ground arith

-- A slice taken in one instant, while the parent has not expired, ends no later than the parent,
-- and no later than the limit that it was given, if that is not 0.
pub slice_bounds :
    (now max_ms : ℕ) (b : TimeoutBudget)
    → now ≤ b.deadline_at
    → ((slice now now none b).deadline_at ≡ b.deadline_at)
      × ((slice now now (some max_ms) b).deadline_at ≤ b.deadline_at)
      × (0 < max_ms → (slice now now (some max_ms) b).total_ms ≤ max_ms)
unfolding slice
slice_bounds now max_ms b h = (omega arith, ground arith, ground arith)
