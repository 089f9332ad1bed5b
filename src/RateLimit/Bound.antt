-- ===== src/RateLimit/Bound.antt =====
-- The rate limit of src/rate-limit/token-bucket.ts over any sequence of requests.
use prism_pipe.Prelude.{
  ℕ, ◌+◌, ◌-◌, ◌*◌, ◌≡◌, ◌≢◌, ◌<◌, ◌≤◌, Bool, true, false, Option, none, some, String,
  if◌then◌else◌, List, [], ◌∷◌, arith, inl, inr, Bool-cases, ap, sym, str_eq, eq_iff, ◌&&◌,
  str_eq_refl,
}
use prism_pipe.Store.Interface.{RateLimitEntry, RateLimitStore}
use prism_pipe.RateLimit.{TokenBucket, RateLimitResult, token_units, full, ttl_ms, check}
use prism_pipe.RateLimit.Available.{available, units_spent, check-Checked, view-check}

-- A request: its time, its key and its cost in tokens.
pub record Request : Type 0 where
  pub at : ℕ
  pub key : String
  pub cost : ℕ

-- The times do not fall from `t` on.
abbrev pub Ordered : ℕ → List Request → Type 0
Ordered t [] = Unit
Ordered t (r ∷ rs) = (t ≤ r.at) × Ordered r.at rs

abbrev pub last_time : ℕ → List Request → ℕ
last_time t [] = t
last_time t (r ∷ rs) = last_time r.at rs

time-le : (t : ℕ) (rs : List Request) → Ordered t rs → t ≤ last_time t rs
time-le t [] o = omega arith
time-le t (r ∷ rs) o = omega (arith, time-le r.at rs o.1)

available-le :
    (b : TokenBucket) (now : ℕ) (v : Option (RateLimitEntry × ℕ)) → available b now v ≤ full b
available-le b now none = omega arith
available-le b now (some (e, expires)) = ground arith

-- A key holds nothing, or what a `check` stored at or before `t`.
abbrev pub StoredBy : ℕ → Option (RateLimitEntry × ℕ) → Type 0
StoredBy t none = Unit
StoredBy t (some (e, expires)) = (e.last_refill ≤ t) × (expires ≡ e.last_refill + ttl_ms)

elapsed_split : (l t now p : ℕ) → l ≤ t → t ≤ now → (now - l) * p ≡ (t - l) * p + (now - t) * p
elapsed_split l t now p h k = grind arith

elapsed_ttl : (l now p : ℕ) → l + ttl_ms < now → ttl_ms * p ≤ (now - l) * p
elapsed_ttl l now p h = grind arith

-- Time adds at most what the rate gives; an entry that expires had time to fill up.
available-grows :
    (b : TokenBucket) (t now : ℕ) (v : Option (RateLimitEntry × ℕ))
    → t ≤ now
    → full b ≤ ttl_ms * b.rate_num
    → StoredBy t v
    → available b now v ≤ available b t v + (now - t) * b.rate_num
available-grows b t now none le small h = omega arith
available-grows b t now (some (e, expires)) le small h = ground (
  arith,
  elapsed_split e.last_refill t now b.rate_num h.0 le,
  elapsed_ttl e.last_refill now b.rate_num,
)

module _ {S : Type 0} (st : RateLimitStore S) (b : TokenBucket) where
  -- One `check` of `key`, seen from the key `k`.
  abbrev spent_by : String → String → ℕ → RateLimitResult → ℕ
  spent_by key k cost r = if str_eq key k then units_spent b cost r else 0

  record Stepped (k key : String) (t at cost : ℕ) (s : S) : Type 0 where
    paid :
        available b at (st.view k (check st b at key cost s).1)
          + spent_by key k cost (check st b at key cost s).0
        ≤ available b t (st.view k s) + (at - t) * b.rate_num
    still : StoredBy at (st.view k (check st b at key cost s).1)

  Stepped-self :
      (k : String) (t at cost : ℕ) (s : S)
      → t ≤ at
      → full b ≤ ttl_ms * b.rate_num
      → StoredBy t (st.view k s)
      → Stepped k k t at cost s
  Stepped-self k t at cost s le small h =
      let c = check-Checked st b at cost k s in
      let grown = available-grows b t at (st.view k s) le small h in
      record {
        paid =
            rw (c.stored, str_eq_refl k)
              (omega (arith, c.conserved, grown, stored_le c.entry (c.stamped)));
        still = rw c.stored (omega (arith, c.stamped), ap (λ x. x + ttl_ms) (sym c.stamped));
      }
    where
      stored_le :
          (e : RateLimitEntry)
          → e.last_refill ≡ at
          → available b at (some (e, at + ttl_ms)) ≤ e.tokens
      stored_le e q = ground arith

  StoredBy-mono :
      (t at : ℕ) (v : Option (RateLimitEntry × ℕ)) → t ≤ at → StoredBy t v → StoredBy at v
  StoredBy-mono t at none le h = tt
  StoredBy-mono t at (some (e, expires)) le h = (omega arith, h.1)

  Stepped-other :
      (k key : String) (t at cost : ℕ) (s : S)
      → str_eq key k ≡ false
      → t ≤ at
      → full b ≤ ttl_ms * b.rate_num
      → StoredBy t (st.view k s)
      → Stepped k key t at cost s
  Stepped-other k key t at cost s differ le small h =
      let n : k ≢ key = λ q. ground (arith, eq_iff key k) in
      record {
        paid =
            rw (view-check st b at cost key k s n, differ)
              (omega (arith, available-grows b t at (st.view k s) le small h));
        still = rw (view-check st b at cost key k s n) (StoredBy-mono t at (st.view k s) le h);
      }

  check-Stepped :
      (k key : String) (t at cost : ℕ) (s : S)
      → t ≤ at
      → full b ≤ ttl_ms * b.rate_num
      → StoredBy t (st.view k s)
      → Stepped k key t at cost s
  check-Stepped k key t at cost s le small h = elim (Bool-cases (str_eq key k)) [
    | inl same ↦ rw ((eq_iff key k).0 same) (Stepped-self k t at cost s le small h)
    | inr other ↦ Stepped-other k key t at cost s other le small h
  ]

  -- The tokens that the requests of key `k` are granted in a sequence of requests of any keys.
  unfoldable pub granted : String → List Request → S → ℕ
  granted k [] s = 0
  granted k (r ∷ rs) s =
      let rest = granted k rs (check st b r.at r.key r.cost s).1 in
      if str_eq r.key k && (check st b r.at r.key r.cost s).0.allowed then r.cost + rest else rest

  total_le :
      (mine allowed : Bool) (cost rest units left had gain total : ℕ)
      → left + (if mine then (if allowed then cost * units else 0) else 0) ≤ had
      → rest * units ≤ left + gain
      → had + gain ≤ total
      → (if mine && allowed then cost + rest else rest) * units ≤ total
  total_le true true cost rest units left had gain total h k le = omega arith
  total_le true false cost rest units left had gain total h k le = omega arith
  total_le false allowed cost rest units left had gain total h k le = omega arith

  granted-le :
      (k : String) (t : ℕ) (rs : List Request) (s : S)
      → full b ≤ ttl_ms * b.rate_num
      → Ordered t rs
      → StoredBy t (st.view k s)
      → granted k rs s * token_units b
        ≤ available b t (st.view k s) + (last_time t rs - t) * b.rate_num
  unfolding granted
  granted-le k t [] s small o h = omega arith
  granted-le k t (r ∷ rs) s small o h =
      let step = check-Stepped k r.key t r.at r.cost s o.0 small h in
      let result = check st b r.at r.key r.cost s in
      let rest = granted-le k r.at rs result.1 small o.1 step.still in
      let split = elapsed_split t r.at (last_time r.at rs) b.rate_num o.0 (time-le r.at rs o.1) in
      total_le (str_eq r.key k) result.0.allowed r.cost (granted k rs result.1) (token_units b) _ _
        _ _ step.paid rest (omega (arith, split))

-- In any sequence of requests of any keys at times that do not fall, the tokens granted to one key
-- are at most one full bucket and what the refill rate gives for the time from the first request
-- to the last (counted in units of 1 / (1000 * rate_den) token). The key holds no entry at first, or
-- one that `check` stored before; a bucket fills up within the hour after which an entry expires; tokens
-- are counted exactly, without the rounding of doubles.
pub granted_bound :
    {S : Type 0} (st : RateLimitStore S) (b : TokenBucket) (k : String) (t : ℕ) (rs : List Request)
    (s : S)
    → full b ≤ ttl_ms * b.rate_num
    → Ordered t rs
    → StoredBy t (st.view k s)
    → granted st b k rs s * token_units b ≤ full b + (last_time t rs - t) * b.rate_num
granted_bound st b k t rs s small o h =
    omega (arith, granted-le st b k t rs s small o h, available-le b t (st.view k s))
