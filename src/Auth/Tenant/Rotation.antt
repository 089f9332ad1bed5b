-- ===== src/Auth/Tenant/Rotation.antt =====
-- What `addTenant` of src/auth/tenant.ts does with the key that a tenant had before.
use prism_pipe.Prelude.{
  ◌≡◌, ◌≢◌, some, String, [], ◌∷◌, Map, lookup, insert, delete, lookup-insert, lookup-delete,
  str_eq, arith, eq_iff, Bool-cases, inl, inr,
}
use prism_pipe.Auth.Token.{Plain}
use prism_pipe.Auth.Tenant.{
  TenantConfig, TenantManager, matched, type_error, by_api_key, authenticate_by_api_key, add_tenant,
  remove_tenant,
}
use prism_pipe.Auth.Tenant.Lookup.{PlainKeys, scan_keys-eq}

insert-PlainKeys :
    (key id : String) (m : Map String) → Plain key → PlainKeys m → PlainKeys (insert key id m)
unfolding insert
insert-PlainKeys key id [] p h = (p, tt)
insert-PlainKeys key id (entry ∷ rest) p h = elim (Bool-cases (str_eq key entry.0)) [
  | inl same ↦ rw same (h.0, h.1)
  | inr other ↦ rw other (h.0, insert-PlainKeys key id rest p h.1)
]

delete-PlainKeys : (key : String) (m : Map String) → PlainKeys m → PlainKeys (delete key m)
unfolding delete
delete-PlainKeys key [] h = tt
delete-PlainKeys key (entry ∷ rest) h = elim (Bool-cases (str_eq key entry.0)) [
  | inl same ↦ rw same (delete-PlainKeys key rest h.1)
  | inr other ↦ rw other (h.0, delete-PlainKeys key rest h.1)
]

module _ {J : Type 0} where
  -- A tenant that is added again with another key is still authenticated by the first key; once it is
  -- removed, the first key makes the authentication throw. The keys have as many bytes as UTF-16
  -- units.
  pub add_tenant-rotated :
      (m : TenantManager J) (t t' : TenantConfig)
      → t'.id ≡ t.id
      → t'.api_key ≢ t.api_key
      → Plain t.api_key
      → Plain t'.api_key
      → PlainKeys m.key_index
      → (authenticate_by_api_key (add_tenant t' (add_tenant t m)) t.api_key
          ≡ matched (by_api_key t'))
        × (authenticate_by_api_key (remove_tenant t.id (add_tenant t' (add_tenant t m))) t.api_key
            ≡ type_error)
  unfolding authenticate_by_api_key add_tenant remove_tenant
  add_tenant-rotated m t t' same other p p' h =
      let index1 = insert t.api_key t.id m.key_index in
      let index2 = insert t'.api_key t'.id index1 in
      let tenants1 = insert t.id t m.tenants in
      let tenants2 = insert t'.id t' tenants1 in
      let plain2 : PlainKeys index2 =
        insert-PlainKeys t'.api_key t'.id index1 p'
          (insert-PlainKeys t.api_key t.id m.key_index p h) in
      let old_key : lookup t.api_key index2 ≡ some t.id = ground (
        arith,
        lookup-insert m.key_index t.api_key t.api_key t.id,
        lookup-insert index1 t'.api_key t.api_key t'.id,
        eq_iff t.api_key t.api_key,
        eq_iff t.api_key t'.api_key,
      ) in
      let present : lookup t.id tenants2 ≡ some t' =
        ground (arith, lookup-insert tenants1 t'.id t.id t', eq_iff t.id t'.id) in
      (
        ground (arith, scan_keys-eq t.api_key index2 tenants2 p plain2),
        rw present (
            ground (
              arith,
              scan_keys-eq t.api_key (delete t'.api_key index2) (delete t.id tenants2) p
                  (delete-PlainKeys t'.api_key index2 plain2),
              lookup-delete index2 t'.api_key t.api_key,
              eq_iff t.api_key t'.api_key,
              lookup-delete tenants2 t.id t.id,
              eq_iff t.id t.id,
            )),
      )
