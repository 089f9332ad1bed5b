-- ===== src/Auth/Tenant/Lookup.antt =====
-- What `authenticateByApiKey` of src/auth/tenant.ts answers.
use prism_pipe.Prelude.{
  ◌≡◌, ◌≢◌, refl, sym, subst, Option, none, some, String, List, [], ◌∷◌, Map, lookup, All, arith,
  Option-cases, inl, inr,
}
use prism_pipe.Auth.Token.{Plain, timing_safe_compare-eq}
use prism_pipe.Auth.Tenant.{
  TenantConfig, TenantManager, Outcome, matched, no_match, range_error, type_error, by_api_key,
  found_tenant, scan_keys, authenticate_by_api_key, no_tenants,
}
use prism_pipe.Auth.Tenant.Consistent.{
  Consistent, Change, AllAllowed, apply_all, apply_all-Consistent, no_tenants-Consistent,
}

abbrev pub PlainKeys : Map String → Type 0
PlainKeys index = All (λ entry. Plain entry.0) index

abbrev pub by_id : Option String → Map TenantConfig → Outcome
by_id none tenants = no_match
by_id (some id) tenants = found_tenant (lookup id tenants)

pub scan_keys-eq :
    (token : String) (index : Map String) (tenants : Map TenantConfig)
    → Plain token
    → PlainKeys index
    → scan_keys token index tenants ≡ by_id (lookup token index) tenants
unfolding scan_keys lookup
scan_keys-eq token [] tenants p h = refl
scan_keys-eq token (entry ∷ rest) tenants p h =
    ground
      (arith, scan_keys-eq token rest tenants p h.1, timing_safe_compare-eq token entry.0 p h.0)

-- The outcome of a token by the tenants alone.
abbrev pub ByTenants : {J : Type 0} → TenantManager J → String → Outcome → Type 0
ByTenants m token (matched ctx) =
    (t : TenantConfig) × (lookup t.id m.tenants ≡ some t)
    × (t.api_key ≡ token)
    × (ctx ≡ by_api_key t)
ByTenants m token no_match =
    (id : String) (t : TenantConfig) → lookup id m.tenants ≡ some t → t.api_key ≢ token
ByTenants m token range_error = ⊥
ByTenants m token type_error = ⊥

module _ {J : Type 0} where
  ByTenants-found :
      (m : TenantManager J) (token : String)
      → Consistent m
      → ByTenants m token (by_id (lookup token m.key_index) m.tenants)
  ByTenants-found m token c = elim (Option-cases (lookup token m.key_index)) [
    | inl missing ↦
        rw missing (λ id t found same. absurd (ground (arith, (c.indexed id t found).0)))
    | inr (id, indexed) ↦
        let (t, found, has_key) = c.resolves token id indexed in
        rw (indexed, by_id, found, found_tenant)
          (
            t,
            subst (λ x. lookup x m.tenants ≡ some t) (sym (c.indexed id t found).1) found,
            has_key,
            refl,
          )
  ]

  -- After any changes of a new manager that add no tenant under an id or a key that is in use, where
  -- the keys and the token have as many bytes as UTF-16 units: the key attempt throws nothing, it
  -- gives the context of a tenant with that key, and it gives `null` only if no tenant has the key.
  pub authenticate_by_api_key-ByTenants :
      (config : Option J) (changes : List (Change J)) (token : String)
      → AllAllowed changes (no_tenants config)
      → PlainKeys (apply_all changes (no_tenants config)).key_index
      → Plain token
      → ByTenants
          (apply_all changes (no_tenants config))
          token
          (authenticate_by_api_key (apply_all changes (no_tenants config)) token)
  unfolding authenticate_by_api_key
  authenticate_by_api_key-ByTenants config changes token f h p =
      let m : TenantManager J = apply_all changes (no_tenants config) in
      subst (ByTenants m token) (sym (scan_keys-eq token m.key_index m.tenants p h)) (
        ByTenants-found m token
          (apply_all-Consistent changes (no_tenants config) f (no_tenants-Consistent config)))
