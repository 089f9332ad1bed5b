-- ===== src/Store/Memory.antt =====
-- src/store/memory.ts: the rate-limit map of the in-memory store, and that it meets the interface.
use prism_pipe.Prelude.{
  ℕ, ◌+◌, ◌≡◌, ◌≢◌, ◌<◌, ◌≤◌, Option, none, some, String, Map, lookup, insert, delete,
  lookup-insert, lookup-delete, ltb, if◌then◌else◌, arith, eq_iff, lt→ltb, le→ltb,
}
use prism_pipe.Store.Interface.{RateLimitEntry, RateLimitStore}

-- The field `rateLimitMap`: entries with `expiresAt`.
abbrev pub RateLimitMap : Type 0
RateLimitMap = Map (RateLimitEntry × ℕ)

-- What `rateLimitGet` does with `this.rateLimitMap.get(key)`.
abbrev serve :
    ℕ → String → Option (RateLimitEntry × ℕ) → RateLimitMap → Option RateLimitEntry × RateLimitMap
serve now k none m = (none, delete k m)
serve now k (some (e, expires)) m = if ltb expires now then (none, delete k m) else (some e, m)

unfoldable pub rate_limit_get : ℕ → String → RateLimitMap → Option RateLimitEntry × RateLimitMap
rate_limit_get now k m = serve now k (lookup k m) m

unfoldable pub rate_limit_set : ℕ → String → RateLimitEntry → ℕ → RateLimitMap → RateLimitMap
rate_limit_set now k e ttl m = insert k (e, now + ttl) m

pub get_live :
    (now : ℕ) (k : String) (m : RateLimitMap) (e : RateLimitEntry) (expires : ℕ)
    → lookup k m ≡ some (e, expires)
    → now ≤ expires
    → (rate_limit_get now k m).0 ≡ some e
unfolding rate_limit_get
get_live now k m e expires found le = rw (found, le→ltb expires now le, serve)

pub get_expired :
    (now : ℕ) (k : String) (m : RateLimitMap) (e : RateLimitEntry) (expires : ℕ)
    → lookup k m ≡ some (e, expires)
    → expires < now
    → (rate_limit_get now k m).0 ≡ none
unfolding rate_limit_get
get_expired now k m e expires found lt = rw (found, lt→ltb expires now lt, serve)

pub get_absent :
    (now : ℕ) (k : String) (m : RateLimitMap)
    → lookup k m ≡ none
    → (rate_limit_get now k m).0 ≡ none
unfolding rate_limit_get
get_absent now k m missing = rw (missing, serve)

serve_other :
    (now : ℕ) (k j : String) (found : Option (RateLimitEntry × ℕ)) (m : RateLimitMap)
    → j ≢ k
    → lookup j (serve now k found m).1 ≡ lookup j m
serve_other now k j none m n = ground (arith, lookup-delete m k j, eq_iff j k)
serve_other now k j (some (e, expires)) m n = ground (arith, lookup-delete m k j, eq_iff j k)

pub get_other :
    (now : ℕ) (k j : String) (m : RateLimitMap)
    → j ≢ k
    → lookup j (rate_limit_get now k m).1 ≡ lookup j m
unfolding rate_limit_get
get_other now k j m n = serve_other now k j (lookup k m) m n

pub set_self :
    (now : ℕ) (k : String) (e : RateLimitEntry) (ttl : ℕ) (m : RateLimitMap)
    → lookup k (rate_limit_set now k e ttl m) ≡ some (e, now + ttl)
unfolding rate_limit_set
set_self now k e ttl m = ground (arith, lookup-insert m k k (e, now + ttl), eq_iff k k)

pub set_other :
    (now : ℕ) (k j : String) (e : RateLimitEntry) (ttl : ℕ) (m : RateLimitMap)
    → j ≢ k
    → lookup j (rate_limit_set now k e ttl m) ≡ lookup j m
unfolding rate_limit_set
set_other now k j e ttl m n = ground (arith, lookup-insert m k j (e, now + ttl), eq_iff j k)

-- The in-memory store behind the interface.
abbrev pub memory_store : RateLimitStore RateLimitMap
memory_store = record {
  rate_limit_get = rate_limit_get;
  rate_limit_set = rate_limit_set;
  view = lookup;
  get_live = get_live;
  get_expired = get_expired;
  get_absent = get_absent;
  get_other = get_other;
  set_self = set_self;
  set_other = set_other;
}
