-- ===== src/Auth/Gate.antt =====
-- src/auth/middleware.ts: the Express middleware in front of the tenants, and the one for
-- administrators. `JSON` bodies are named by their code.
use prism_pipe.Prelude.{
  ◌≡◌, ◌≢◌, ◌↔◌, ◌⊎◌, inl, inr, refl, subst, Bool, true, false, Option, none, some, String, List,
  [], ◌∷◌, Map, includes, if◌then◌else◌, arith, eq_iff, get_or, Bool-cases,
}
use prism_pipe.Auth.Token.{compare_bytes, compare_bytes-eq, strip_bearer, truthy, token_of}
use prism_pipe.Auth.Keys.{Request}
use prism_pipe.Auth.Costs.{Costs, over_budget}
use prism_pipe.Auth.Tenant.{
  TenantContext, TenantManager, Outcome, matched, no_match, range_error, type_error, Claims,
  authenticate,
}

-- `next()` with the tenant that was attached, an answer, or what `authenticate` threw.
pub data Reply : Type 0 where
  next : Option TenantContext → Reply
  missing_credentials invalid_credentials : Reply
  budget_exceeded : String → Reply
  thrown : Reply

abbrev pub no_one : {A : Type 0} → Map A → Bool
no_one [] = true
no_one (t ∷ ts) = false

abbrev pub default_public_paths : List String
default_public_paths = "/health" ∷ "/v1/models" ∷ []

-- `isOverBudget(ctx)`, in the month of the call.
abbrev pub is_over_budget : String → Costs → TenantContext → Bool
is_over_budget month costs ctx = over_budget month ctx.tenant_id ctx.budget_usd costs

abbrev pub admit_tenant : String → Costs → Outcome → Reply
admit_tenant month costs (matched ctx) =
    if is_over_budget month costs ctx then budget_exceeded ctx.tenant_id else next (some ctx)
admit_tenant month costs no_match = invalid_credentials
admit_tenant month costs range_error = thrown
admit_tenant month costs type_error = thrown

module _ {J : Type 0} (verify : J → String → Option Claims) (public_paths : Option (List String))
    (month : String) (costs : Costs) (m : TenantManager J) where
  abbrev pub by_token : Option String → Reply
  by_token none = missing_credentials
  by_token (some token) = admit_tenant month costs (authenticate verify m token)

  unfoldable pub multi_tenant_auth : Request → Reply
  unfolding authenticate over_budget
  multi_tenant_auth req =
      if includes (get_or public_paths default_public_paths) req.path
      then next none
      else if no_one m.tenants
      then next none
      else by_token (token_of req.authorization req.x_api_key)

  -- The request needs a tenant.
  abbrev pub Guarded : Request → Type 0
  Guarded req =
      (includes (get_or public_paths default_public_paths) req.path ≡ false)
      × (no_one m.tenants ≡ false)

  by_token-next :
      (token : Option String) (ctx : TenantContext)
      → by_token token ≡ next (some ctx)
      → (t : String) × (token ≡ some t)
        × (authenticate verify m t ≡ matched ctx)
        × (is_over_budget month costs ctx ≡ false)
  by_token-next none ctx e = absurd (ground arith)
  by_token-next (some t) ctx e =
      let (same, within) = admitted (authenticate verify m t) e in (t, refl, same, within)
    where
      admitted :
          (o : Outcome)
          → admit_tenant month costs o ≡ next (some ctx)
          → (o ≡ matched ctx) × (is_over_budget month costs ctx ≡ false)
      admitted (matched c) e = elim (Bool-cases (is_over_budget month costs c)) [
        | inl over ↦ absurd (ground arith)
        | inr within ↦
            let same : c ≡ ctx = ground arith in
            (ground arith, subst (λ x. is_over_budget month costs x ≡ false) same within)
      ]
      admitted no_match e = absurd (ground arith)
      admitted range_error e = absurd (ground arith)
      admitted type_error e = absurd (ground arith)

  by_token-ne : (token : Option String) → by_token token ≢ next none
  by_token-ne none = ground arith
  by_token-ne (some t) = refused (authenticate verify m t)
    where
      refused : (o : Outcome) → admit_tenant month costs o ≢ next none
      refused (matched c) = ground arith
      refused no_match = ground arith
      refused range_error = ground arith
      refused type_error = ground arith

-- A request reaches the handler with a tenant only if it needs one, has a token that authenticates
-- as this tenant, and the tenant has not reached its budget; it reaches the handler without a tenant
-- only if its path is public or there are no tenants.
pub multi_tenant_auth_next :
    {J : Type 0} (verify : J → String → Option Claims) (public_paths : Option (List String))
    (month : String) (costs : Costs) (m : TenantManager J) (req : Request)
    → ((ctx : TenantContext)
        → multi_tenant_auth verify public_paths month costs m req ≡ next (some ctx)
        → Guarded verify public_paths month costs m req
          × (t : String) × (token_of req.authorization req.x_api_key ≡ some t)
          × (authenticate verify m t ≡ matched ctx)
          × (is_over_budget month costs ctx ≡ false))
      × (multi_tenant_auth verify public_paths month costs m req ≡ next none
          → ¬ Guarded verify public_paths month costs m req)
unfolding multi_tenant_auth
multi_tenant_auth_next verify public_paths month costs m req =
    let token = token_of req.authorization req.x_api_key in
    elim (Bool-cases (includes (get_or public_paths default_public_paths) req.path)) [
      | inl public ↦ (λ ctx e. absurd (ground arith), λ e g. ground arith)
      | inr private ↦ elim (Bool-cases (no_one m.tenants)) [
        | inl empty ↦ (λ ctx e. absurd (ground arith), λ e g. ground arith)
        | inr tenants ↦ (
          λ ctx e.
              let (t, shown, known, within) =
                by_token-next verify public_paths month costs m token ctx (ground arith) in
              ((private, tenants), t, shown, known, within),
          λ e g. by_token-ne verify public_paths month costs m token (ground arith),
        )
      ]
    ]

-- `requireAdmin`: whether the request passes, by the tenant that is attached, the text of
-- `PRISM_ADMIN_KEY` and the header.
abbrev pub is_admin : Option TenantContext → Bool
is_admin none = false
is_admin (some ctx) = ctx.admin

abbrev pub header_token : Option String → Option String
header_token none = none
header_token (some header) = truthy (strip_bearer header)

abbrev pub non_empty : Option String → Option String
non_empty none = none
non_empty (some s) = truthy s

abbrev pub opens : (admin_key token : Option String) → Bool
opens (some key) (some token) = compare_bytes token key
opens _ _ = false

unfoldable pub require_admin : Option TenantContext → Option String → Option String → Bool
unfolding compare_bytes
require_admin tenant admin_key authorization =
    if is_admin tenant then true else opens (non_empty admin_key) (header_token authorization)

opens_iff :
    (admin_key token : Option String)
    → opens admin_key token ≡ true ↔ ((k : String) × (admin_key ≡ some k) × (token ≡ some k))
opens_iff (some key) (some token) = (
  λ e. (key, refl, ground (arith, compare_bytes-eq token key, eq_iff token key)),
  λ same. ground (arith, compare_bytes-eq token key, eq_iff token key, same.1, same.2),
)
opens_iff (some key) none = (λ e. absurd (ground arith), λ same. absurd (ground (arith, same.2)))
opens_iff none token = (λ e. absurd (ground arith), λ same. absurd (ground (arith, same.1)))

-- A request passes to an administration route exactly when its tenant is an administrator, or the
-- token of its header is the configured key and not empty.
pub require_admin_iff :
    (tenant : Option TenantContext) (admin_key authorization : Option String)
    → require_admin tenant admin_key authorization ≡ true ↔ (
        (is_admin tenant ≡ true)
        ⊎ ((k : String) × (non_empty admin_key ≡ some k) × (header_token authorization ≡ some k)))
unfolding require_admin
require_admin_iff tenant admin_key authorization = elim (Bool-cases (is_admin tenant)) [
  | inl admin ↦ (λ e. inl admin, λ h. rw admin refl)
  | inr not_admin ↦ (
    λ e. inr ((opens_iff (non_empty admin_key) (header_token authorization)).0 (ground arith)),
    λ h. elim h [
      | inl admin ↦ rw admin refl
      | inr key ↦
          rw not_admin ((opens_iff (non_empty admin_key) (header_token authorization)).1 key)
    ],
  )
]
