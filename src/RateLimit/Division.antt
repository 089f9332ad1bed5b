-- ===== src/RateLimit/Division.antt =====
-- Division rounded up, for `Math.ceil` of a quotient.
use prism_pipe.Prelude.{ℕ, ◌+◌, ◌-◌, ◌/◌}

unfoldable pub ceil_div : ℕ → ℕ → ℕ
ceil_div a b = (a + (b - 1)) / b
