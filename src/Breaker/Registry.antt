-- ===== src/Breaker/Registry.antt =====
-- src/fallback/circuit-breaker.ts: the registry of breakers, keyed by provider name.
use prism_pipe.Prelude.{
  ℕ, ◌≡◌, ◌≢◌, Bool, refl, arith, String, none, some, Map, lookup, insert, lookup-insert, eq_iff,
}
use prism_pipe.Breaker.{
  CircuitBreaker, CircuitBreakerOptions, new, allow_request, record_success, record_failure,
}

pub record CircuitBreakerRegistry : Type 0 where
  pub breakers : Map CircuitBreaker
  pub default_opts : CircuitBreakerOptions

-- `get`: the breaker that the registry holds for this provider, or a new one.
unfoldable pub breaker_of : String → CircuitBreakerRegistry → CircuitBreaker
breaker_of provider r = elim (lookup provider r.breakers) [
  | none ↦ new provider r.default_opts
  | some b ↦ b
]

-- A call of a method on `get(provider)`: the object in the map is the one that changes.
unfoldable pub update : String → CircuitBreaker → CircuitBreakerRegistry → CircuitBreakerRegistry
update provider b r = record r { breakers = insert provider b r.breakers }

-- `isAvailable`
unfoldable pub is_available : ℕ → String → CircuitBreakerRegistry → CircuitBreakerRegistry × Bool
unfolding update
is_available now provider r =
    let (b, allowed) = allow_request now (breaker_of provider r) in (update provider b r, allowed)

unfoldable pub note_success : ℕ → String → CircuitBreakerRegistry → CircuitBreakerRegistry
unfolding update
note_success now provider r = update provider (record_success now (breaker_of provider r)) r

unfoldable pub note_failure : ℕ → String → CircuitBreakerRegistry → CircuitBreakerRegistry
unfolding update
note_failure now provider r = update provider (record_failure now (breaker_of provider r)) r

pub breaker_of-update :
    (p q : String) (b : CircuitBreaker) (r : CircuitBreakerRegistry)
    → ((p ≡ q) → breaker_of q (update p b r) ≡ b)
      × ((p ≢ q) → breaker_of q (update p b r) ≡ breaker_of q r)
unfolding breaker_of update
breaker_of-update p q b r = (
  λ e. ground (arith, lookup-insert r.breakers p q b, eq_iff q p),
  λ n. ground (arith, lookup-insert r.breakers p q b, eq_iff q p),
)

-- A request asked of one provider, and its outcome, act on that provider's breaker and on no other.
pub registry_frame :
    (now : ℕ) (p q : String) (r : CircuitBreakerRegistry)
    → p ≢ q
    → (breaker_of p (is_available now p r).0 ≡ (allow_request now (breaker_of p r)).0)
      × (breaker_of q (is_available now p r).0 ≡ breaker_of q r)
      × (breaker_of p (note_success now p r) ≡ record_success now (breaker_of p r))
      × (breaker_of q (note_success now p r) ≡ breaker_of q r)
      × (breaker_of p (note_failure now p r) ≡ record_failure now (breaker_of p r))
      × (breaker_of q (note_failure now p r) ≡ breaker_of q r)
unfolding is_available note_success note_failure
registry_frame now p q r n = (
  (breaker_of-update p p _ r).0 refl,
  (breaker_of-update p q _ r).1 n,
  (breaker_of-update p p _ r).0 refl,
  (breaker_of-update p q _ r).1 n,
  (breaker_of-update p p _ r).0 refl,
  (breaker_of-update p q _ r).1 n,
)
