-- ===== src/Auth/Token.antt =====
-- How the three authentication files compare credentials and read them from the headers. Texts are
-- Unicode texts: `Buffer.from` gives their UTF-8, `length` counts UTF-16 units.
use prism_pipe.Prelude.{
  ℕ, ◌+◌, ◌≡◌, Bool, false, Option, none, some, String, str_eq, ◌==◌, leb, if◌then◌else◌, arith,
  eq_iff,
}
use Prim.Native.String.{[], ◌∷◌, len, slice}
use Prim.Native.Char.{code}
use text.Mathlib.Text.{starts_with}

-- `s.length`
unfoldable pub utf16_length : String → ℕ
utf16_length [] = 0
utf16_length (c ∷ s) = (if leb 65536 (code c) then 2 else 1) + utf16_length s

-- As many bytes as UTF-16 units, as every ASCII text has.
abbrev pub Plain : String → Type 0
Plain s = len s ≡ utf16_length s

-- `timingSafeCompare` of src/auth/tenant.ts and src/server/auth.ts. `none` is the RangeError of
-- `crypto.timingSafeEqual` for buffers of different lengths.
unfoldable pub timing_safe_compare : String → String → Option Bool
unfolding utf16_length
timing_safe_compare a b =
    if utf16_length a == utf16_length b
    then if len a == len b then some (str_eq a b) else none
    else some false

-- `timingSafeCompare` of src/auth/middleware.ts
unfoldable pub compare_bytes : String → String → Bool
compare_bytes a b = if len a == len b then str_eq a b else false

-- `h?.startsWith('Bearer ') ? h.slice(7) : h`
abbrev pub strip_bearer : String → String
strip_bearer header = if starts_with header "Bearer " then slice header 7 (len header) else header

-- The token of a request; an empty one is falsy.
abbrev pub truthy : String → Option String
truthy s = if str_eq s "" then none else some s

abbrev pub token_of : (authorization x_api_key : Option String) → Option String
token_of none none = none
token_of none (some key) = truthy key
token_of (some header) _ = truthy (strip_bearer header)

pub timing_safe_compare-eq :
    (a b : String) → Plain a → Plain b → timing_safe_compare a b ≡ some (str_eq a b)
unfolding timing_safe_compare
timing_safe_compare-eq a b p q = ground (arith, eq_iff a b)

pub compare_bytes-eq : (a b : String) → compare_bytes a b ≡ str_eq a b
unfolding compare_bytes
compare_bytes-eq a b = ground (arith, eq_iff a b)
