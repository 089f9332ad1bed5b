-- ===== src/RateLimit/Tests.antt =====
-- Runs of the token bucket over the in-memory store, and instances of its theorems.
use prism_pipe.Prelude.{
  ℕ, ◌+◌, ◌*◌, ◌≡◌, ◌≤◌, false, none, some, String, List, [], ◌∷◌, arith, refl, lookup, insert,
  delete,
}
use prism_pipe.Store.Memory.{RateLimitMap, memory_store, rate_limit_get, rate_limit_set}
use prism_pipe.RateLimit.{TokenBucket, create, refused, bad_rate, token_units, check}
use prism_pipe.RateLimit.Bound.{Request, granted, granted_bound}
use prism_pipe.RateLimit.Visits.{Visit, let_through, let_through_bound}
use prism_pipe.RateLimit.Middleware.{
  HttpRequest, missing_client_ip, rate_limit_middleware, rate_limit_middleware,
}

-- Two requests per minute: 1/30 token per second.
abbrev slow_bucket : TokenBucket
slow_bucket = record { capacity = 2; rate_num = 1; rate_den = 30 }

abbrev asks : List Request
asks =
    record { at = 1000; key = "ip:a"; cost = 1 }
    ∷ record { at = 1000; key = "ip:b"; cost = 1 }
    ∷ record { at = 2000; key = "ip:a"; cost = 1 }
    ∷ record { at = 3000; key = "ip:a"; cost = 1 }
    ∷ record { at = 31000; key = "ip:a"; cost = 1 }
    ∷ []

-- What a test must see through.
bucket_runs : Unit {0}
unfolding check granted rate_limit_get rate_limit_set lookup insert delete create
    rate_limit_middleware
bucket_runs = tt

granted_test : granted memory_store slow_bucket "ip:a" asks [] ≡ 3
unfolding bucket_runs
granted_test = refl

create_test : create 10 0 1 ≡ refused bad_rate
unfolding bucket_runs
create_test = refl

granted_bound_example :
    granted memory_store slow_bucket "ip:a" asks [] * token_units slow_bucket ≤ 60000 + 30000 * 1
unfolding lookup
granted_bound_example =
    granted_bound memory_store slow_bucket "ip:a" 1000 asks [] (omega arith) (omega arith) tt

abbrev poor : TokenBucket
poor = record { capacity = 1; rate_num = 1; rate_den = 1 }

abbrev drained : RateLimitMap
drained = (check memory_store poor 1000 "k" 1 []).1

refusal :
    ((check memory_store poor 1400 "k" 1 drained).0.allowed ≡ false)
    × ((check memory_store poor 1400 "k" 1 drained).0.retry_after_ms ≡ some 600)
unfolding bucket_runs
refusal = (refl, refl)

abbrev anonymous : HttpRequest
anonymous = record { path = "/v1/chat/completions"; ip = none; remote_address = none }

anonymous_refused :
    (rate_limit_middleware memory_store poor 1000 anonymous []).0 ≡ missing_client_ip
unfolding bucket_runs
anonymous_refused = refl

abbrev visitor : String → String → ℕ → Visit
visitor path ip at = record {
  at = at;
  req = record { path = path; ip = some ip; remote_address = none };
}

abbrev visits : List Visit
visits =
    visitor "/v1/chat/completions" "::1" 1000
    ∷ visitor "/health" "::1" 1100
    ∷ visitor "/v1/chat/completions" "::2" 1200
    ∷ visitor "/v1/chat/completions" "::1" 1400
    ∷ visitor "/v1/chat/completions" "::1" 2100
    ∷ []

two_pass : let_through memory_store poor "::1" visits [] ≡ 2
unfolding bucket_runs let_through
two_pass = refl

let_through_bound_example :
    let_through memory_store poor "::1" visits [] * token_units poor ≤ 1000 + 1100 * 1
unfolding lookup
let_through_bound_example =
    let_through_bound memory_store poor "::1" 1000 visits [] (omega arith) (omega arith) tt
