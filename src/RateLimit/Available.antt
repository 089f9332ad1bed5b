-- ===== src/RateLimit/Available.antt =====
-- How many units a key of src/rate-limit/token-bucket.ts has, and what one `check` makes of them.
use prism_pipe.Prelude.{
  ℕ, ◌+◌, ◌-◌, ◌*◌, ◌≡◌, ◌≢◌, Bool, true, false, Option, none, some, String, min, leb, ltb,
  if◌then◌else◌, arith, refl, inl, inr, Bool-cases, Option-cases, ap, ◌∙◌, ltb→lt,
}
use prism_pipe.Store.Interface.{RateLimitEntry, RateLimitStore}
use prism_pipe.RateLimit.Division.{ceil_div}
use prism_pipe.RateLimit.{
  TokenBucket, RateLimitResult, token_units, full, ttl_ms, fresh_entry, entry_or, refill, spend,
  check,
}

-- The units of a key at time `now`: a missing or expired entry counts as a full bucket.
abbrev pub available : TokenBucket → ℕ → Option (RateLimitEntry × ℕ) → ℕ
available b now none = full b
available b now (some (e, expires)) =
    if ltb expires now then full b else min (full b) (e.tokens + (now - e.last_refill) * b.rate_num)

abbrev pub units_spent : TokenBucket → ℕ → RateLimitResult → ℕ
units_spent b cost r = if r.allowed then cost * token_units b else 0

-- What a refusal tells the client to wait.
abbrev pub wait_ms : TokenBucket → ℕ → ℕ → Bool → Option ℕ
wait_ms b cost tokens true = none
wait_ms b cost tokens false = some (ceil_div (cost * token_units b - tokens) b.rate_num)

module _ (b : TokenBucket) where
  fresh-tokens : (now : ℕ) (key : String) → (refill b now (fresh_entry b now key)).tokens ≡ full b
  unfolding refill fresh_entry
  fresh-tokens now key = grind arith

  spend_lem :
      (now cost : ℕ) (e : RateLimitEntry)
      → ((spend b now cost e).1.allowed ≡ leb (cost * token_units b) e.tokens)
        × ((spend b now cost e).0.tokens + units_spent b cost (spend b now cost e).1 ≡ e.tokens)
        × ((spend b now cost e).0.last_refill ≡ e.last_refill)
        × ((spend b now cost e).1.retry_after_ms
            ≡ wait_ms b cost e.tokens (spend b now cost e).1.allowed)
  unfolding spend
  spend_lem now cost e = ground arith

module _ {S : Type 0} (st : RateLimitStore S) (b : TokenBucket) where
  found-tokens :
      (now : ℕ) (k : String) (s : S)
      → (refill b now (entry_or (fresh_entry b now k) (st.rate_limit_get now k s).0)).tokens
        ≡ available b now (st.view k s)
  unfolding refill
  found-tokens now k s = elim (Option-cases (st.view k s)) [
    | inl e ↦ rw (e, st.get_absent now k s e) (fresh-tokens b now k)
    | inr ((entry, expires), e) ↦ elim (Bool-cases (ltb expires now)) [
      | inl old ↦
          rw (e, st.get_expired now k s entry expires e (ltb→lt _ _ old), old)
            (fresh-tokens b now k)
      | inr live ↦ rw (e, st.get_live now k s entry expires e (ground arith), live) refl
    ]
  ]

  -- What a `check` leaves under its key, and when it allows the request.
  pub record Checked (now cost : ℕ) (k : String) (s : S) : Type 0 where
    pub entry : RateLimitEntry
    pub stored : st.view k (check st b now k cost s).1 ≡ some (entry, now + ttl_ms)
    pub decided :
        (check st b now k cost s).0.allowed
        ≡ leb (cost * token_units b) (available b now (st.view k s))
    pub conserved :
        entry.tokens + units_spent b cost (check st b now k cost s).0
        ≡ available b now (st.view k s)
    pub waited :
        (check st b now k cost s).0.retry_after_ms
        ≡ wait_ms b cost (available b now (st.view k s)) (check st b now k cost s).0.allowed
    pub stamped : entry.last_refill ≡ now

  pub check-Checked : (now cost : ℕ) (k : String) (s : S) → Checked now cost k s
  unfolding check refill
  check-Checked now cost k s =
      let found = refill b now (entry_or (fresh_entry b now k) (st.rate_limit_get now k s).0) in
      let tokens = found-tokens now k s in
      let law = spend_lem b now cost found in
      record {
        entry = (spend b now cost found).0;
        stored = st.set_self now k _ ttl_ms _;
        decided = law.0 ∙ ap (leb (cost * token_units b)) tokens;
        conserved = law.1 ∙ tokens;
        waited = law.3 ∙ ap (λ x. wait_ms b cost x (spend b now cost found).1.allowed) tokens;
        stamped = law.2;
      }

  -- A `check` of another key leaves the entry of `k` as it is.
  pub view-check :
      (now cost : ℕ) (k j : String) (s : S)
      → j ≢ k
      → st.view j (check st b now k cost s).1 ≡ st.view j s
  unfolding check
  view-check now cost k j s n = st.set_other now k j _ ttl_ms _ n ∙ st.get_other now k j s n
