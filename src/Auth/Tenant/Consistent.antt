-- ===== src/Auth/Tenant/Consistent.antt =====
-- The tenants and the key index of a manager of src/auth/tenant.ts agree as long as no tenant is
-- added under an id or a key that is in use.
use prism_pipe.Prelude.{
  ◌≡◌, subst, Option, none, some, String, List, [], ◌∷◌, lookup, insert, lookup-insert,
  lookup-delete, str_eq, arith, eq_iff, Option-cases, Bool-cases, inl, inr,
}
use prism_pipe.Auth.Tenant.{
  TenantConfig, TenantManager, no_tenants, add_tenant, remove_found, remove_tenant, add_tenants,
  with_jwt, update_config,
}

-- The calls that change a manager.
pub data Change (J : Type 0) : Type 0 where
  add : TenantConfig → Change J
  remove : String → Change J
  update : Option (List TenantConfig) → Option J → Change J

module _ {J : Type 0} where
  -- Every key leads to the tenant that has it, and every tenant is found under its id and its key.
  pub record Consistent (m : TenantManager J) : Type 0 where
    pub resolves :
        (key id : String)
        → lookup key m.key_index ≡ some id
        → (t : TenantConfig) × (lookup id m.tenants ≡ some t) × (t.api_key ≡ key)
    pub indexed :
        (id : String) (t : TenantConfig)
        → lookup id m.tenants ≡ some t
        → (lookup t.api_key m.key_index ≡ some id) × (t.id ≡ id)

  abbrev pub Fresh : TenantConfig → TenantManager J → Type 0
  Fresh t m = (lookup t.id m.tenants ≡ none) × (lookup t.api_key m.key_index ≡ none)

  pub no_tenants-Consistent : (c : Option J) → Consistent (no_tenants c)
  unfolding lookup
  no_tenants-Consistent c = record {
    resolves = λ key id e. absurd (ground arith);
    indexed = λ id t e. absurd (ground arith);
  }

  pub add_tenant-Consistent :
      (t : TenantConfig) (m : TenantManager J)
      → Fresh t m
      → Consistent m
      → Consistent (add_tenant t m)
  unfolding add_tenant
  add_tenant-Consistent t m f c = record {
    resolves = λ key id e. elim (Bool-cases (str_eq key t.api_key)) [
      | inl same ↦ (
        t,
        ground (
          arith,
          lookup-insert m.key_index t.api_key key t.id,
          lookup-insert m.tenants t.id id t,
          eq_iff id t.id,
        ),
        ground (arith, eq_iff key t.api_key),
      )
      | inr other ↦
          let (t', found, has_key) =
            c.resolves key id (ground (arith, lookup-insert m.key_index t.api_key key t.id)) in
          (t', ground (arith, lookup-insert m.tenants t.id id t, eq_iff id t.id), has_key)
    ];
    indexed = λ id t' e. elim (Bool-cases (str_eq id t.id)) [
      | inl same ↦
          let here : t ≡ t' = ground (arith, lookup-insert m.tenants t.id id t) in
          subst
            (λ x. (lookup x.api_key (insert t.api_key t.id m.key_index) ≡ some id) × (x.id ≡ id))
            here
            (
              ground (
                arith,
                lookup-insert m.key_index t.api_key t.api_key t.id,
                eq_iff t.api_key t.api_key,
                eq_iff id t.id,
              ),
              ground (arith, eq_iff id t.id),
            )
      | inr other ↦
          let (found, named) =
            c.indexed id t' (ground (arith, lookup-insert m.tenants t.id id t)) in
          (
            ground (
              arith,
              lookup-insert m.key_index t.api_key t'.api_key t.id,
              eq_iff t'.api_key t.api_key,
            ),
            named,
          )
    ];
  }

  remove_found-Consistent :
      (id : String) (t : TenantConfig) (m : TenantManager J)
      → lookup id m.tenants ≡ some t
      → Consistent m
      → Consistent (remove_found (some t) id m)
  remove_found-Consistent id t m found c = record {
    resolves = λ key id' e.
        let (t', found', has_key) =
          c.resolves key id'
            (ground (arith, lookup-delete m.key_index t.api_key key, eq_iff key t.api_key)) in
        (
          t',
          ground (
            arith,
            lookup-delete m.tenants id id',
            eq_iff id' id,
            lookup-delete m.key_index t.api_key key,
            eq_iff key t.api_key,
          ),
          has_key,
        );
    indexed = λ id' t' e.
        let (found', named) =
          c.indexed id' t' (ground (arith, lookup-delete m.tenants id id', eq_iff id' id)) in
        (
          ground (
            arith,
            lookup-delete m.tenants id id',
            eq_iff id' id,
            (c.indexed id t found).0,
            lookup-delete m.key_index t.api_key t'.api_key,
            eq_iff t'.api_key t.api_key,
          ),
          named,
        );
  }

  pub remove_tenant-Consistent :
      (id : String) (m : TenantManager J) → Consistent m → Consistent (remove_tenant id m)
  unfolding remove_tenant
  remove_tenant-Consistent id m c = elim (Option-cases (lookup id m.tenants)) [
    | inl missing ↦ rw missing c
    | inr (t, found) ↦ rw found (remove_found-Consistent id t m found c)
  ]

  -- No tenant of the list is added under an id or a key that is in use by then.
  abbrev pub AllFresh : List TenantConfig → TenantManager J → Type 0
  AllFresh [] m = Unit
  AllFresh (t ∷ ts) m = Fresh t m × AllFresh ts (add_tenant t m)

  pub add_tenants-Consistent :
      (ts : List TenantConfig) (m : TenantManager J)
      → AllFresh ts m
      → Consistent m
      → Consistent (add_tenants ts m)
  unfolding add_tenants
  add_tenants-Consistent [] m f c = c
  add_tenants-Consistent (t ∷ ts) m f c =
      add_tenants-Consistent ts (add_tenant t m) f.1 (add_tenant-Consistent t m f.0 c)

  with_jwt-Consistent :
      (config : Option J) (m : TenantManager J) → Consistent m → Consistent (with_jwt config m)
  with_jwt-Consistent none m c = c
  with_jwt-Consistent (some j) m c = record { resolves = c.resolves; indexed = c.indexed }

  abbrev pub apply : Change J → TenantManager J → TenantManager J
  apply (add t) m = add_tenant t m
  apply (remove id) m = remove_tenant id m
  apply (update ts config) m = update_config ts config m

  abbrev pub Allowed : Change J → TenantManager J → Type 0
  Allowed (add t) m = Fresh t m
  Allowed (remove id) m = Unit
  Allowed (update none config) m = Unit
  Allowed (update (some ts) config) m = AllFresh ts (no_tenants m.jwt_config)

  apply-Consistent :
      (change : Change J) (m : TenantManager J)
      → Allowed change m
      → Consistent m
      → Consistent (apply change m)
  unfolding update_config
  apply-Consistent (add t) m f c = add_tenant-Consistent t m f c
  apply-Consistent (remove id) m f c = remove_tenant-Consistent id m c
  apply-Consistent (update none config) m f c = with_jwt-Consistent config m c
  apply-Consistent (update (some ts) config) m f c =
      with_jwt-Consistent config _
        (add_tenants-Consistent ts (no_tenants m.jwt_config) f (no_tenants-Consistent m.jwt_config))

  unfoldable pub apply_all : List (Change J) → TenantManager J → TenantManager J
  unfolding add_tenant remove_tenant update_config
  apply_all [] m = m
  apply_all (change ∷ changes) m = apply_all changes (apply change m)

  abbrev pub AllAllowed : List (Change J) → TenantManager J → Type 0
  AllAllowed [] m = Unit
  AllAllowed (change ∷ changes) m = Allowed change m × AllAllowed changes (apply change m)

  pub apply_all-Consistent :
      (changes : List (Change J)) (m : TenantManager J)
      → AllAllowed changes m
      → Consistent m
      → Consistent (apply_all changes m)
  unfolding apply_all
  apply_all-Consistent [] m f c = c
  apply_all-Consistent (change ∷ changes) m f c =
      apply_all-Consistent changes (apply change m) f.1 (apply-Consistent change m f.0 c)
