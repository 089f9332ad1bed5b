-- ===== src/Store/Interface.antt =====
-- src/store/interface.ts: the rate-limit half of the `Store` interface, with the laws that the
-- token bucket relies on. `view` is what a store holds under a key, with the time of its expiry.
use prism_pipe.Prelude.{ℕ, ◌+◌, ◌≡◌, ◌≢◌, ◌<◌, ◌≤◌, Option, none, some, String}

-- `tokens` counts in the units of the bucket that owns the entry.
pub record RateLimitEntry : Type 0 where
  pub key : String
  pub tokens : ℕ
  pub last_refill : ℕ
  pub reset_at : ℕ

pub record RateLimitStore (S : Type 0) : Type 0 where
  pub rate_limit_get : ℕ → String → S → Option RateLimitEntry × S
  pub rate_limit_set : ℕ → String → RateLimitEntry → ℕ → S → S
  pub view : String → S → Option (RateLimitEntry × ℕ)
  pub get_live :
      (now : ℕ) (k : String) (s : S) (e : RateLimitEntry) (expires : ℕ)
      → view k s ≡ some (e, expires)
      → now ≤ expires
      → (rate_limit_get now k s).0 ≡ some e
  pub get_expired :
      (now : ℕ) (k : String) (s : S) (e : RateLimitEntry) (expires : ℕ)
      → view k s ≡ some (e, expires)
      → expires < now
      → (rate_limit_get now k s).0 ≡ none
  pub get_absent :
      (now : ℕ) (k : String) (s : S) → view k s ≡ none → (rate_limit_get now k s).0 ≡ none
  pub get_other :
      (now : ℕ) (k j : String) (s : S) → j ≢ k → view j (rate_limit_get now k s).1 ≡ view j s
  pub set_self :
      (now : ℕ) (k : String) (e : RateLimitEntry) (ttl : ℕ) (s : S)
      → view k (rate_limit_set now k e ttl s) ≡ some (e, now + ttl)
  pub set_other :
      (now : ℕ) (k j : String) (e : RateLimitEntry) (ttl : ℕ) (s : S)
      → j ≢ k
      → view j (rate_limit_set now k e ttl s) ≡ view j s
