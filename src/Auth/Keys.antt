-- ===== src/Auth/Keys.antt =====
-- src/server/auth.ts: the list of API keys and the Express middleware that asks for one.
use prism_pipe.Prelude.{
  ◌≡◌, ◌↔◌, ◌≢◌, ◌⊎◌, Bool, true, false, Option, none, some, String, List, [], ◌∷◌, All, includes,
  str_eq, ltb, ◌||◌, if◌then◌else◌, arith, refl, eq_iff,
}
use prism_pipe.Auth.Token.{
  Plain, utf16_length, timing_safe_compare, timing_safe_compare-eq, token_of,
}

-- `validateApiKeys` does not throw.
unfoldable pub validate_api_keys : List String → Bool
validate_api_keys [] = true
validate_api_keys (key ∷ keys) =
    let rest = validate_api_keys keys in if ltb (utf16_length key) 32 then false else rest

pub record Request : Type 0 where
  pub path : String
  pub authorization : Option String
  pub x_api_key : Option String

pub data Reply : Type 0 where
  next missing_api_key invalid_api_key range_error : Reply

-- `apiKeys.some(key => timingSafeCompare(token, key))`; `none` when a comparison throws.
unfoldable pub some_key : String → List String → Option Bool
some_key token [] = some false
some_key token (key ∷ keys) =
    let rest = some_key token keys in
    elim (timing_safe_compare token key) [ none ↦ none | some true ↦ some true | some false ↦ rest ]

abbrev pub by_key : Option Bool → Reply
by_key none = range_error
by_key (some true) = next
by_key (some false) = invalid_api_key

abbrev pub by_token : Option String → List String → Reply
by_token none keys = missing_api_key
by_token (some token) keys = by_key (some_key token keys)

abbrev pub skips_auth : String → Bool
skips_auth path = str_eq path "/health" || str_eq path "/v1/models"

abbrev pub is_empty : List String → Bool
is_empty [] = true
is_empty (k ∷ ks) = false

-- The handler of `createAuthMiddleware`; no list of keys is the empty list.
unfoldable pub auth_middleware : List String → Request → Reply
unfolding some_key timing_safe_compare utf16_length
auth_middleware keys req =
    if skips_auth req.path
    then next
    else if is_empty keys
    then next
    else by_token (token_of req.authorization req.x_api_key) keys

some_key-includes :
    (token : String) (keys : List String)
    → Plain token
    → All Plain keys
    → some_key token keys ≡ some (includes keys token)
unfolding some_key
some_key-includes token [] p h = refl
some_key-includes token (key ∷ keys) p h = ground (
  arith,
  some_key-includes token keys p h.1,
  timing_safe_compare-eq token key p h.0,
  eq_iff token key,
  eq_iff key token,
)

abbrev pub PlainToken : Option String → Type 0
PlainToken none = Unit
PlainToken (some token) = Plain token

abbrev pub Entitled : List String → Option String → Type 0
Entitled keys none = ⊥
Entitled keys (some token) = includes keys token ≡ true

by_key_iff :
    (found : Bool)
    → (by_key (some found) ≡ next ↔ (found ≡ true)) × (by_key (some found) ≢ range_error)
by_key_iff true = ground arith
by_key_iff false = ground arith

by_token_iff :
    (token : Option String) (keys : List String)
    → PlainToken token
    → All Plain keys
    → (by_token token keys ≡ next ↔ Entitled keys token) × (by_token token keys ≢ range_error)
by_token_iff none keys p h = ground arith
by_token_iff (some token) keys p h =
    rw (some_key-includes token keys p h) (by_key_iff (includes keys token))

-- Where the token and the keys have as many bytes as UTF-16 units, a request passes exactly when its
-- path is open, no keys are configured, or its token is one of the keys, and no comparison throws.
pub auth_middleware_iff :
    (keys : List String) (req : Request)
    → PlainToken (token_of req.authorization req.x_api_key)
    → All Plain keys
    → (auth_middleware keys req ≡ next ↔ (
        (skips_auth req.path ≡ true)
        ⊎ ((is_empty keys ≡ true) ⊎ Entitled keys (token_of req.authorization req.x_api_key))))
      × (auth_middleware keys req ≢ range_error)
unfolding auth_middleware
auth_middleware_iff keys req p h =
    ground (arith, by_token_iff (token_of req.authorization req.x_api_key) keys p h)
