-- ===== src/RateLimit.antt =====
-- src/rate-limit/token-bucket.ts. The refill rate is the fraction `rate_num / rate_den` of tokens
-- per second, and tokens are counted in units of 1 / (1000 * rate_den), in which every amount that
-- the code computes is a whole number: a millisecond refills `rate_num` units. (The doubles of the
-- source round where the fraction has no exact double.) A clock that is set back is left out.
pub mod Division
pub mod Available
pub mod Bound
pub mod Visits
pub mod Middleware
mod Tests
use prism_pipe.Prelude.{
  ℕ, ◌+◌, ◌-◌, ◌*◌, ◌/◌, Bool, true, false, Option, none, some, String, min, leb, ◌==◌,
  if◌then◌else◌,
}
use prism_pipe.Store.Interface.{RateLimitEntry, RateLimitStore}
use Division.{ceil_div}

pub record TokenBucket : Type 0 where
  pub capacity : ℕ
  pub rate_num : ℕ
  pub rate_den : ℕ

pub record RateLimitResult : Type 0 where
  pub allowed : Bool
  pub remaining : ℕ
  pub limit : ℕ
  pub reset_at : ℕ
  pub retry_after_ms : Option ℕ

pub data ConfigError : Type 0 where
  bad_capacity bad_rate : ConfigError

pub data Created : Type 0 where
  created : TokenBucket → Created
  refused : ConfigError → Created

-- `constructor`
unfoldable pub create : ℕ → ℕ → ℕ → Created
create capacity rate_num rate_den =
    if capacity == 0
    then refused bad_capacity
    else if rate_num == 0
    then refused bad_rate
    else created (record { capacity = capacity; rate_num = rate_num; rate_den = rate_den })

-- The units in one token, and in the full bucket.
abbrev pub token_units : TokenBucket → ℕ
token_units b = 1000 * b.rate_den

abbrev pub full : TokenBucket → ℕ
full b = b.capacity * token_units b

-- The default of `ttlMs` in `rateLimitSet`.
abbrev pub ttl_ms : ℕ
ttl_ms = 3600000

unfoldable pub fresh_entry : TokenBucket → ℕ → String → RateLimitEntry
unfolding ceil_div
fresh_entry b now key = record {
  key = key;
  tokens = full b;
  last_refill = now;
  reset_at = now + ceil_div (full b) b.rate_num;
}

abbrev pub entry_or : RateLimitEntry → Option RateLimitEntry → RateLimitEntry
entry_or fresh none = fresh
entry_or fresh (some e) = e

-- The refill by the time elapsed, up to the capacity.
unfoldable pub refill : TokenBucket → ℕ → RateLimitEntry → RateLimitEntry
refill b now e = record e {
  tokens = min (full b) (e.tokens + (now - e.last_refill) * b.rate_num);
  last_refill = now;
}

-- The tests of `check` on the refilled entry: the entry to store and the answer; `cost` in tokens.
unfoldable pub spend : TokenBucket → ℕ → ℕ → RateLimitEntry → RateLimitEntry × RateLimitResult
unfolding ceil_div
spend b now cost e =
    let price = cost * token_units b in
    let left = e.tokens - price in
    let reset = now + ceil_div (full b - left) b.rate_num in
    if leb price e.tokens
    then (
      record e { tokens = left; reset_at = reset },
      record {
        allowed = true;
        remaining = left / token_units b;
        limit = b.capacity;
        reset_at = reset;
        retry_after_ms = none;
      },
    )
    else (
      e,
      record {
        allowed = false;
        remaining = 0;
        limit = b.capacity;
        reset_at = e.reset_at;
        retry_after_ms = some (ceil_div (price - e.tokens) b.rate_num);
      },
    )

module _ {S : Type 0} (st : RateLimitStore S) (b : TokenBucket) where
  unfoldable pub check : ℕ → String → ℕ → S → RateLimitResult × S
  unfolding fresh_entry refill spend
  check now key cost s =
      let (found, s') = st.rate_limit_get now key s in
      let (e, result) = spend b now cost (refill b now (entry_or (fresh_entry b now key) found)) in
      (result, st.rate_limit_set now key e ttl_ms s')
