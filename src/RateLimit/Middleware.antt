-- ===== src/RateLimit/Middleware.antt =====
-- src/server/rate-limit.ts: the Express middleware in front of the token bucket.
use prism_pipe.Prelude.{
  ℕ, Bool, Option, none, some, String, str_eq, str_append, ◌||◌, if◌then◌else◌, get_or,
}
use prism_pipe.Store.Interface.{RateLimitStore}
use prism_pipe.RateLimit.Division.{ceil_div}
use prism_pipe.RateLimit.{TokenBucket, RateLimitResult, check}

-- `req.path`, `req.ip` and `req.socket.remoteAddress`
pub record HttpRequest : Type 0 where
  pub path : String
  pub ip : Option String
  pub remote_address : Option String

-- The `X-RateLimit-…` headers as numbers.
pub record RateHeaders : Type 0 where
  pub limit : ℕ
  pub remaining : ℕ
  pub reset : ℕ

-- `next()` with the headers that were set, or the status and the `Retry-After` of an answer.
pub data Reply : Type 0 where
  passed : Option RateHeaders → Reply
  missing_client_ip : Reply
  rate_limited : RateHeaders → ℕ → Reply

-- `req.ip ?? req.socket.remoteAddress`
abbrev pub client_ip : HttpRequest → Option String
client_ip req = elim req.ip [ none ↦ req.remote_address | some ip ↦ some ip ]

-- An absent or empty text is falsy.
abbrev pub truthy : Option String → Option String
truthy none = none
truthy (some ip) = if str_eq ip "" then none else some ip

abbrev pub headers_of : RateLimitResult → RateHeaders
headers_of r = record { limit = r.limit; remaining = r.remaining; reset = ceil_div r.reset_at 1000 }

abbrev pub answer : RateLimitResult → Reply
answer r =
    if r.allowed
    then passed (some (headers_of r))
    else rate_limited (headers_of r) (ceil_div (get_or r.retry_after_ms 1000) 1000)

abbrev pub open_path : String → Bool
open_path path = str_eq path "/health" || str_eq path "/v1/models"

module _ {S : Type 0} (st : RateLimitStore S) (b : TokenBucket) where
  unfoldable pub rate_limit_middleware : ℕ → HttpRequest → S → Reply × S
  rate_limit_middleware now req s =
      if open_path req.path then (passed none, s) else elim (truthy (client_ip req)) [
        | none ↦ (missing_client_ip, s)
        | some ip ↦ let out = check st b now (str_append "ip:" ip) 1 s in (answer out.0, out.1)
      ]
