-- ===== src/RateLimit/Visits.antt =====
-- How many requests of one address src/server/rate-limit.ts lets through to the pipeline.
use prism_pipe.Prelude.{
  ℕ, suc, ◌+◌, ◌-◌, ◌*◌, ◌≡◌, ◌≤◌, Bool, true, false, not, ◌&&◌, none, some, Option, String,
  str_append, List, [], ◌∷◌, if◌then◌else◌, arith, inl, inr, Bool-cases, Option-cases, str_eq,
  eq_iff, str_eq_refl,
}
use prism_pipe.Store.Interface.{RateLimitStore}
use prism_pipe.RateLimit.{TokenBucket, RateLimitResult, token_units, full, ttl_ms, check}
use prism_pipe.RateLimit.Bound.{Request, Ordered, last_time, StoredBy, granted, granted_bound}
use prism_pipe.RateLimit.Middleware.{
  HttpRequest, Reply, passed, missing_client_ip, rate_limited, client_ip, truthy, open_path, answer,
  rate_limit_middleware,
}

-- A request that comes in, and its time.
pub record Visit : Type 0 where
  pub at : ℕ
  pub req : HttpRequest

-- The times do not fall from `t` on.
abbrev pub InOrder : ℕ → List Visit → Type 0
InOrder t [] = Unit
InOrder t (v ∷ vs) = (t ≤ v.at) × InOrder v.at vs

abbrev pub last_visit : ℕ → List Visit → ℕ
last_visit t [] = t
last_visit t (v ∷ vs) = last_visit v.at vs

-- The request is from the address, and for a path that is limited.
abbrev pub is_from : String → HttpRequest → Bool
is_from ip req =
    not (open_path req.path)
    && elim (truthy (client_ip req)) [ none ↦ false | some ip' ↦ str_eq ip' ip ]

abbrev pub is_passed : Reply → Bool
is_passed (passed headers) = true
is_passed missing_client_ip = false
is_passed (rate_limited headers after) = false

module _ {S : Type 0} (st : RateLimitStore S) (b : TokenBucket) where
  -- How many requests of the address for limited paths reach `next()`.
  unfoldable pub let_through : String → List Visit → S → ℕ
  let_through ip [] s = 0
  let_through ip (v ∷ vs) s =
      let out = rate_limit_middleware st b v.at v.req s in
      let rest = let_through ip vs out.1 in
      if is_from ip v.req && is_passed out.0 then suc rest else rest

  -- The `check` that a request leads to, before those of later requests.
  abbrev asks_of : ℕ → Bool → Option String → List Request → List Request
  asks_of at true who later = later
  asks_of at false none later = later
  asks_of at false (some ip) later = record { at = at; key = str_append "ip:" ip; cost = 1 } ∷ later

  abbrev asks : List Visit → List Request
  asks [] = []
  asks (v ∷ vs) = asks_of v.at (open_path v.req.path) (truthy (client_ip v.req)) (asks vs)

  Ordered-later : (t u : ℕ) (rs : List Request) → t ≤ u → Ordered u rs → Ordered t rs
  Ordered-later t u [] le o = tt
  Ordered-later t u (r ∷ rs) le o = (omega (arith, o.0), o.1)

  last_time-later : (t u : ℕ) (rs : List Request) → t ≤ u → last_time t rs ≤ last_time u rs
  last_time-later t u [] le = le
  last_time-later t u (r ∷ rs) le = omega arith

  asks_of-Ordered :
      (t at : ℕ) (free : Bool) (who : Option String) (later : List Request)
      → t ≤ at
      → Ordered at later
      → Ordered t (asks_of at free who later)
        × (last_time t (asks_of at free who later) ≤ last_time at later)
  asks_of-Ordered t at true who later le o =
      (Ordered-later t at later le o, last_time-later t at later le)
  asks_of-Ordered t at false none later le o =
      (Ordered-later t at later le o, last_time-later t at later le)
  asks_of-Ordered t at false (some ip) later le o = ((le, o), omega arith)

  asks-Ordered :
      (t : ℕ) (vs : List Visit)
      → InOrder t vs
      → Ordered t (asks vs) × (last_time t (asks vs) ≤ last_visit t vs)
  asks-Ordered t [] o = (tt, omega arith)
  asks-Ordered t (v ∷ vs) o =
      let rest = asks-Ordered v.at vs o.1 in
      let here =
        asks_of-Ordered t v.at (open_path v.req.path) (truthy (client_ip v.req)) (asks vs) o.0
          rest.0 in
      (here.0, omega (arith, here.1, rest.1))

  is_passed-answer : (r : RateLimitResult) → is_passed (answer r) ≡ r.allowed
  is_passed-answer r = ground arith

  one_more :
      (allowed : Bool) {n m : ℕ}
      → n ≤ m
      → (if true && allowed then suc n else n) ≤ (if true && allowed then 1 + m else m)
  one_more allowed le = ground (arith, le)

  at_most : (mine allowed : Bool) {n m : ℕ} → n ≤ m → n ≤ (if mine && allowed then 1 + m else m)
  at_most mine allowed le = ground (arith, le)

  -- A request that passes has a token of its address's bucket.
  let_through-le :
      (ip : String) (vs : List Visit) (s : S)
      → let_through ip vs s ≤ granted st b (str_append "ip:" ip) (asks vs) s
  unfolding let_through granted rate_limit_middleware
  let_through-le ip [] s = omega arith
  let_through-le ip (v ∷ vs) s = elim (Bool-cases (open_path v.req.path)) [
    | inl free ↦ rw free (let_through-le ip vs s)
    | inr limited ↦ elim (Option-cases (truthy (client_ip v.req))) [
      | inl nobody ↦ rw (limited, nobody) (let_through-le ip vs s)
      | inr (ip', known) ↦
          let result = λ (x : String). check st b v.at (str_append "ip:" x) 1 s in
          rw (limited, known, is_passed-answer (result ip').0)
            (elim (Bool-cases (str_eq ip' ip)) [
              | inl same ↦
                  rw (same, (eq_iff ip' ip).0 same, str_eq_refl (str_append "ip:" ip))
                    (one_more (result ip).0.allowed (let_through-le ip vs (result ip).1))
              | inr other ↦ rw other (
                  at_most (str_eq (str_append "ip:" ip') (str_append "ip:" ip))
                    (result ip').0.allowed (let_through-le ip vs (result ip').1))
            ])
    ]
  ]

-- Of any sequence of requests at times that do not fall, from whatever addresses and for whatever
-- paths, the middleware lets through to the pipeline at most as many of one address, for the paths
-- that are limited, as one full bucket and what its refill gives from `t` to the last request pay for
-- (counted in units of 1 / (1000 * rate_den) token). The address's key holds no entry at first, or one
-- that `check` stored before; a bucket fills up within the hour after which an entry expires; tokens
-- are counted exactly, without the rounding of doubles.
pub let_through_bound :
    {S : Type 0} (st : RateLimitStore S) (b : TokenBucket) (ip : String) (t : ℕ) (vs : List Visit)
    (s : S)
    → full b ≤ ttl_ms * b.rate_num
    → InOrder t vs
    → StoredBy t (st.view (str_append "ip:" ip) s)
    → let_through st b ip vs s * token_units b ≤ full b + (last_visit t vs - t) * b.rate_num
let_through_bound st b ip t vs s small o h =
    let (ordered, last) = asks-Ordered st b t vs o in
    let bound = granted_bound st b (str_append "ip:" ip) t (asks st b vs) s small ordered h in
    let le = let_through-le st b ip vs s in grind (arith, bound, le, last)
