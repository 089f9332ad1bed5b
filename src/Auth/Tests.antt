-- ===== src/Auth/Tests.antt =====
-- Runs of the authentication, and its theorems at concrete tenants.
use prism_pipe.Prelude.{
  ℕ, ◌≡◌, ◌≢◌, ◌↔◌, ◌⊎◌, refl, true, false, Option, none, some, String, List, [], ◌∷◌, lookup,
  insert, delete, arith, eq_iff,
}
use prism_pipe.Auth.Token.{utf16_length, timing_safe_compare, compare_bytes, token_of}
use prism_pipe.Auth.Keys.{
  validate_api_keys, Request, next, invalid_api_key, range_error, some_key, skips_auth, is_empty,
  auth_middleware, Entitled, auth_middleware_iff,
}
use prism_pipe.Auth.Costs.{Spending, month_cost, record_cost, record_all, over_budget}
use prism_pipe.Auth.Tenant.{
  TenantConfig, TenantContext, Claims, TenantManager, matched, type_error, by_api_key, scan_keys,
  no_tenants, new, add_tenant, remove_tenant, add_tenants, update_config, authenticate,
  authenticate_by_api_key, authenticate_by_jwt,
}
use prism_pipe.Auth.Tenant.Consistent.{Change, add, remove, apply_all}
use prism_pipe.Auth.Tenant.Lookup.{ByTenants, authenticate_by_api_key-ByTenants}
use prism_pipe.Auth.Tenant.Rotation.{add_tenant-rotated}
use prism_pipe.Auth.Gate as Gate
use prism_pipe.Auth.Gate.{
  multi_tenant_auth, Guarded, is_over_budget, multi_tenant_auth_next, is_admin, non_empty,
  header_token, require_admin, require_admin_iff,
}

auth_runs : Unit {0}
unfolding timing_safe_compare utf16_length compare_bytes some_key auth_middleware validate_api_keys
    month_cost record_cost record_all over_budget scan_keys new add_tenant remove_tenant add_tenants
    update_config authenticate authenticate_by_api_key authenticate_by_jwt multi_tenant_auth
    require_admin lookup insert delete apply_all
auth_runs = tt

abbrev asked : Request
asked = record { path = "/v1/chat"; authorization = some "Bearer key-a"; x_api_key = none }

passes : auth_middleware ("key-b" ∷ "key-a" ∷ []) asked ≡ next
unfolding auth_runs
passes = refl

refuses : auth_middleware ("key-b" ∷ []) asked ≡ invalid_api_key
unfolding auth_runs
refuses = refl

-- A token of the key's length with a character outside ASCII makes the comparison throw.
crashes :
    auth_middleware
      ("key-b" ∷ [])
      (record { path = "/v1/chat"; authorization = some "Bearer kéy-b"; x_api_key = none })
    ≡ range_error
unfolding auth_runs
crashes = refl

short_key : validate_api_keys ("key-b" ∷ []) ≡ false
unfolding auth_runs
short_key = refl

auth_middleware_iff_example :
    (auth_middleware ("key-b" ∷ "key-a" ∷ []) asked ≡ next ↔ (
      (skips_auth "/v1/chat" ≡ true)
      ⊎ ((is_empty ("key-b" ∷ "key-a" ∷ []) ≡ true)
          ⊎ Entitled ("key-b" ∷ "key-a" ∷ []) (token_of (some "Bearer key-a") none))))
    × (auth_middleware ("key-b" ∷ "key-a" ∷ []) asked ≢ range_error)
unfolding auth_runs
auth_middleware_iff_example =
    auth_middleware_iff ("key-b" ∷ "key-a" ∷ []) asked refl (refl, (refl, tt))

abbrev tenant : String → String → Option ℕ → TenantConfig
tenant id key budget = record {
  id = id;
  name = id;
  api_key = key;
  rate_limit_rpm = none;
  allowed_providers = none;
  budget_usd = budget;
  admin = none;
}

abbrev acme : TenantConfig
acme = tenant "acme" "key-a" (some 100)

abbrev bolt : TenantConfig
bolt = tenant "bolt" "key-b" none

abbrev changes : List (Change ℕ)
changes = add acme ∷ add bolt ∷ remove "bolt" ∷ []

abbrev manager : TenantManager ℕ
manager = apply_all changes (no_tenants none)

authenticates : authenticate_by_api_key manager "key-a" ≡ matched (by_api_key acme)
unfolding auth_runs
authenticates = refl

authenticate_by_api_key-ByTenants_example :
    ByTenants manager "key-a" (authenticate_by_api_key manager "key-a")
unfolding auth_runs
authenticate_by_api_key-ByTenants_example =
    authenticate_by_api_key-ByTenants none changes "key-a" ((refl, refl), ((refl, refl), (tt, tt)))
      (refl, tt) refl

abbrev acme2 : TenantConfig
acme2 = tenant "acme" "key-c" none

add_tenant-rotated_example :
    (authenticate_by_api_key (add_tenant acme2 (add_tenant acme (no_tenants {J = ℕ} none))) "key-a"
      ≡ matched (by_api_key acme2))
    × (authenticate_by_api_key
          (remove_tenant "acme" (add_tenant acme2 (add_tenant acme (no_tenants {J = ℕ} none))))
          "key-a"
        ≡ type_error)
unfolding auth_runs
add_tenant-rotated_example =
    add_tenant-rotated {J = ℕ} (no_tenants none) acme acme2 refl
      (ground (arith, eq_iff "key-c" "key-a")) refl refl tt

abbrev spent : List Spending
spent =
    record { month = "2026-03"; tenant = "acme"; cost = 60 }
    ∷ record { month = "2026-03"; tenant = "bolt"; cost = 9 }
    ∷ record { month = "2026-03"; tenant = "acme"; cost = 50 }
    ∷ []

abbrev no_jwt : ℕ → String → Option Claims
no_jwt secret token = none

over :
    multi_tenant_auth no_jwt none "2026-03" (record_all spent []) manager asked
    ≡ Gate.budget_exceeded "acme"
unfolding auth_runs
over = refl

next_month :
    multi_tenant_auth no_jwt none "2026-04" (record_all spent []) manager asked
    ≡ Gate.next (some (by_api_key acme))
unfolding auth_runs
next_month = refl

multi_tenant_auth_next_example :
    ((ctx : TenantContext)
      → multi_tenant_auth no_jwt none "2026-04" (record_all spent []) manager asked
        ≡ Gate.next (some ctx)
      → Guarded no_jwt none "2026-04" (record_all spent []) manager asked
        × (t : String) × (token_of (some "Bearer key-a") none ≡ some t)
        × (authenticate no_jwt manager t ≡ matched ctx)
        × (is_over_budget "2026-04" (record_all spent []) ctx ≡ false))
    × (multi_tenant_auth no_jwt none "2026-04" (record_all spent []) manager asked ≡ Gate.next none
        → ¬ Guarded no_jwt none "2026-04" (record_all spent []) manager asked)
multi_tenant_auth_next_example =
    multi_tenant_auth_next no_jwt none "2026-04" (record_all spent []) manager asked
