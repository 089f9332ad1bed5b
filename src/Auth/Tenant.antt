-- ===== src/Auth/Tenant.antt =====
-- `TenantManager` of src/auth/tenant.ts. The JWT library is a parameter: `verify` gives the claims of
-- a token, or nothing where `jwt.verify` throws. The OAuth2 options are stored and never read. Money
-- is in natural numbers of a smallest unit.
pub mod Consistent
pub mod Lookup
pub mod Rotation
use prism_pipe.Prelude.{
  ℕ, ◌≡◌, Bool, true, false, Option, none, some, String, List, [], ◌∷◌, Map, lookup, insert, delete,
  values, get_or, includes, str_eq, ◌||◌, if◌then◌else◌,
}
use prism_pipe.Auth.Token.{timing_safe_compare}

pub record TenantConfig : Type 0 where
  pub id : String
  pub name : String
  pub api_key : String
  pub rate_limit_rpm : Option ℕ
  pub allowed_providers : Option (List String)
  pub budget_usd : Option ℕ
  pub admin : Option Bool

pub data AuthMethod : Type 0 where
  api_key jwt oauth2 : AuthMethod

pub record TenantContext : Type 0 where
  pub tenant_id : String
  pub tenant_name : String
  pub admin : Bool
  pub allowed_providers : Option (List String)
  pub rate_limit_rpm : Option ℕ
  pub budget_usd : Option ℕ
  pub auth_method : AuthMethod

-- The claims that are read; `admin` is whether the claim is `true`.
pub record Claims : Type 0 where
  pub sub : Option String
  pub client_id : Option String
  pub name : Option String
  pub admin : Bool
  pub role : Option String
  pub providers : Option (List String)
  pub rate_limit : Option ℕ
  pub budget : Option ℕ

pub record TenantManager (J : Type 0) : Type 0 where
  pub tenants : Map TenantConfig
  pub key_index : Map String
  pub jwt_config : Option J

-- A context, `null`, or what is thrown: the RangeError of a comparison, the TypeError of an index
-- entry without its tenant.
pub data Outcome : Type 0 where
  matched : TenantContext → Outcome
  no_match range_error type_error : Outcome

abbrev pub by_api_key : TenantConfig → TenantContext
by_api_key t = record {
  tenant_id = t.id;
  tenant_name = t.name;
  admin = get_or t.admin false;
  allowed_providers = t.allowed_providers;
  rate_limit_rpm = t.rate_limit_rpm;
  budget_usd = t.budget_usd;
  auth_method = api_key;
}

abbrev pub found_tenant : Option TenantConfig → Outcome
found_tenant none = type_error
found_tenant (some t) = matched (by_api_key t)

-- The loop of `authenticateByApiKey`.
unfoldable pub scan_keys : String → Map String → Map TenantConfig → Outcome
scan_keys token [] tenants = no_match
scan_keys token (entry ∷ rest) tenants =
    let later = scan_keys token rest tenants in
    elim (timing_safe_compare token entry.0) [
      | none ↦ range_error
      | some true ↦ found_tenant (lookup entry.1 tenants)
      | some false ↦ later
    ]

-- `a ?? b`
abbrev pub first_of : Option String → Option String → Option String
first_of none b = b
first_of (some a) b = some a

abbrev pub is_admin_role : Option String → Bool
is_admin_role none = false
is_admin_role (some role) = str_eq role "admin"

abbrev pub by_claims : Claims → TenantContext
by_claims c = record {
  tenant_id = get_or (first_of c.sub c.client_id) "jwt-user";
  tenant_name = get_or (first_of c.name c.sub) "JWT User";
  admin = c.admin || is_admin_role c.role;
  allowed_providers = c.providers;
  rate_limit_rpm = c.rate_limit;
  budget_usd = c.budget;
  auth_method = jwt;
}

abbrev pub claimed : Option Claims → Outcome
claimed none = no_match
claimed (some c) = matched (by_claims c)

-- `authenticate`: the second attempt runs where the first one returned `null`.
abbrev pub or_else : Outcome → Outcome → Outcome
or_else no_match second = second
or_else (matched ctx) second = matched ctx
or_else range_error second = range_error
or_else type_error second = type_error

module _ {J : Type 0} where
  abbrev pub no_tenants : Option J → TenantManager J
  no_tenants jwt_config = record { tenants = []; key_index = []; jwt_config = jwt_config }

  unfoldable pub add_tenant : TenantConfig → TenantManager J → TenantManager J
  add_tenant t m = record m {
    tenants = insert t.id t m.tenants;
    key_index = insert t.api_key t.id m.key_index;
  }

  abbrev pub remove_found : Option TenantConfig → String → TenantManager J → TenantManager J
  remove_found none id m = m
  remove_found (some t) id m = record m {
    key_index = delete t.api_key m.key_index;
    tenants = delete id m.tenants;
  }

  unfoldable pub remove_tenant : String → TenantManager J → TenantManager J
  remove_tenant id m = remove_found (lookup id m.tenants) id m

  unfoldable pub add_tenants : List TenantConfig → TenantManager J → TenantManager J
  unfolding add_tenant
  add_tenants [] m = m
  add_tenants (t ∷ ts) m = add_tenants ts (add_tenant t m)

  -- The constructor of `TenantManager`.
  unfoldable pub new : List TenantConfig → Option J → TenantManager J
  unfolding add_tenants
  new ts jwt_config = add_tenants ts (no_tenants jwt_config)

  abbrev pub with_jwt : Option J → TenantManager J → TenantManager J
  with_jwt none m = m
  with_jwt (some c) m = record m { jwt_config = some c }

  abbrev pub with_tenants : Option (List TenantConfig) → TenantManager J → TenantManager J
  with_tenants none m = m
  with_tenants (some ts) m = add_tenants ts (no_tenants m.jwt_config)

  unfoldable pub update_config :
      Option (List TenantConfig) → Option J → TenantManager J → TenantManager J
  unfolding add_tenants
  update_config ts c m = with_jwt c (with_tenants ts m)

  unfoldable pub authenticate_by_api_key : TenantManager J → String → Outcome
  unfolding scan_keys
  authenticate_by_api_key m token = scan_keys token m.key_index m.tenants

  unfoldable pub authenticate_by_jwt :
      (J → String → Option Claims) → TenantManager J → String → Outcome
  authenticate_by_jwt verify m token = elim m.jwt_config [
    | none ↦ no_match
    | some c ↦ claimed (verify c token)
  ]

  unfoldable pub authenticate : (J → String → Option Claims) → TenantManager J → String → Outcome
  unfolding authenticate_by_api_key authenticate_by_jwt
  authenticate verify m token =
      or_else (authenticate_by_api_key m token) (authenticate_by_jwt verify m token)

unfoldable pub can_use_provider : TenantContext → String → Bool
can_use_provider ctx provider = elim ctx.allowed_providers [
  | none ↦ true
  | some [] ↦ true
  | some (p ∷ ps) ↦ includes (p ∷ ps) provider
]
