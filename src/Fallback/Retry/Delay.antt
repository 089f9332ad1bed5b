-- ===== src/Fallback/Retry/Delay.antt =====
-- The delays of src/fallback/retry.ts.
use prism_pipe.Prelude.{
  ℕ, ◌*◌, ◌^◌, ◌≡◌, ◌<◌, ◌≤◌, Option, none, some, min, ltb, if◌then◌else◌, arith,
}
use prism_pipe.Fallback.Retry.{Fraction, round_div, jittered, exponential_delay, calculate_backoff}

-- A fraction of at most 1.
abbrev pub AtMostOne : Fraction → Type 0
AtMostOne f = (f.over ≤ f.under) × (0 < f.under)

product-pos : (a b : ℕ) → 0 < a → 0 < b → 0 < a * b
product-pos a b p q = grind arith

round_div-le : (n d c : ℕ) → 0 < d → n ≤ c * d → round_div n d ≤ c
unfolding round_div
round_div-le n d c p h = grind arith

round_div_exact : (c d : ℕ) → 0 < d → round_div (c * d) d ≡ c
unfolding round_div
round_div_exact c d p = grind arith

jittered-le :
    (random jitter : Fraction) (c : ℕ)
    → AtMostOne random
    → AtMostOne jitter
    → jittered random jitter c ≤ 2 * c * (random.under * jitter.under)
jittered-le random jitter c r j =
    let a : c * jitter.over * random.over ≤ c * jitter.over * random.under = grind arith in
    let b : c * random.under * jitter.over ≤ c * random.under * jitter.under = grind arith in
    omega arith

delay-le :
    (random jitter : Fraction) (attempt base max : ℕ)
    → AtMostOne random
    → AtMostOne jitter
    → exponential_delay random attempt base max jitter ≤ 2 * max
delay-le random jitter attempt base max r j =
    let capped = min (base * 2 ^ attempt) max in
    let d = product-pos random.under jitter.under (omega arith) (omega arith) in
    let le =
      round_div-le (jittered random jitter capped) _ (2 * capped) d
        (jittered-le random jitter capped r j) in
    omega arith

delay_exact :
    (random : Fraction) (attempt base max under : ℕ)
    → AtMostOne random
    → 0 < under
    → exponential_delay random attempt base max (record { over = 0; under = under })
      ≡ min (base * 2 ^ attempt) max
delay_exact random attempt base max under r u =
    let capped = min (base * 2 ^ attempt) max in
    let same : jittered random (record { over = 0; under = under }) capped
        ≡ capped * (random.under * under) =
      grind arith in
    rw same (round_div_exact capped _ (product-pos random.under under (omega arith) u))

-- The time that the server asked for, if it is not 0.
abbrev pub asked : Option ℕ → ℕ → ℕ
asked none t = t
asked (some after) t = if ltb 0 after then after else t

-- With a jitter of at most 1, a delay is at most twice the maximum. Without jitter it is the time
-- that the server asked for, if that is not 0, or else the base doubled for each attempt before, in
-- both cases cut to the maximum.
pub calculate_backoff_bounds :
    (random jitter : Fraction) (attempt base max under : ℕ) (after : Option ℕ)
    → AtMostOne random
    → AtMostOne jitter
    → 0 < under
    → (calculate_backoff random attempt base max jitter after ≤ 2 * max)
      × (calculate_backoff random attempt base max (record { over = 0; under = under }) after
          ≡ min (asked after (base * 2 ^ attempt)) max)
unfolding calculate_backoff
calculate_backoff_bounds random jitter attempt base max under none r j u =
    (delay-le random jitter attempt base max r j, delay_exact random attempt base max under r u)
calculate_backoff_bounds random jitter attempt base max under (some t) r j u =
    let le = delay-le random jitter attempt base max r j in
    let exact = delay_exact random attempt base max under r u in (ground arith, ground arith)
