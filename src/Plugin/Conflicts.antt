-- ===== src/Plugin/Conflicts.antt =====
-- What a registration of src/plugin/registry.ts keeps and adds.
use prism_pipe.Prelude.{
  ◌≡◌, Bool, true, inl, inr, false, Option, none, some, String, List, [], ◌∷◌, Map, lookup, has,
  lookup-insert, All, str_eq_refl, subst, Option-cases, arith, eq_iff, str_eq, refl, ◌∙◌, ap,
  if◌then◌else◌,
}
use prism_pipe.Plugin.{
  ExtensionKind, middleware, composer, store, log_sink, metrics_exporter, Plugin, RegistryEntry,
  PluginRegistry, RegistryError, already_registered, ok, ◌>>◌, middleware_name, extension_name,
  check_conflicts, commit, commit_all, register,
}

-- The first of two that is there.
abbrev pub or_else : {A : Type 0} → Option A → Option A → Option A
or_else none second = second
or_else (some x) second = some x

module _ {A : Type 0} (name_of : A → String) (plugin : String) where
  check_conflicts-none :
      (kind : ExtensionKind) (xs : List A) (m : Map (RegistryEntry A)) (n : String)
      {e : RegistryEntry A}
      → check_conflicts name_of kind plugin xs m ≡ none
      → lookup n m ≡ some e
      → All (λ x. str_eq n (name_of x) ≡ false) xs
  unfolding check_conflicts
  check_conflicts-none kind [] m n c found = tt
  check_conflicts-none kind (x ∷ xs) m n c found = elim (Option-cases (lookup (name_of x) m)) [
    | inr (old, e) ↦ absurd (ground arith)
    | inl free ↦ (
      ground (arith, eq_iff n (name_of x)),
      check_conflicts-none kind xs m n (rw (free, check_conflicts) at c) found,
    )
  ]

  commit_other :
      (xs : List A) (m : Map (RegistryEntry A)) (n : String)
      → All (λ x. str_eq n (name_of x) ≡ false) xs
      → lookup n (commit name_of plugin xs m) ≡ lookup n m
  unfolding commit
  commit_other [] m n h = refl
  commit_other (x ∷ xs) m n h =
      commit_other xs _ n h.1
      ∙ lookup-insert m (name_of x) n (record { plugin = plugin; extension = x })
      ∙ ap (λ b. if b then some (record { plugin = plugin; extension = x }) else lookup n m) h.0

  -- The last extension of this name in a plugin's list.
  abbrev pub last_named : String → List A → Option A
  last_named n [] = none
  last_named n (x ∷ xs) = or_else (last_named n xs) (if str_eq n (name_of x) then some x else none)

  -- The plugin's own entry for an extension, or else what was there before.
  abbrev pub entry_or : Option A → Option (RegistryEntry A) → Option (RegistryEntry A)
  entry_or none before = before
  entry_or (some x) before = some (record { plugin = plugin; extension = x })

  entry_or-or_else :
      (o : Option A) (same : Bool) (x : A) (before : Option (RegistryEntry A))
      → entry_or o (if same then some (record { plugin = plugin; extension = x }) else before)
        ≡ entry_or (or_else o (if same then some x else none)) before
  entry_or-or_else (some y) same x before = refl
  entry_or-or_else none true x before = refl
  entry_or-or_else none false x before = refl

  lookup-commit :
      (xs : List A) (m : Map (RegistryEntry A)) (n : String)
      → lookup n (commit name_of plugin xs m) ≡ entry_or (last_named n xs) (lookup n m)
  unfolding commit
  lookup-commit [] m n = refl
  lookup-commit (x ∷ xs) m n =
      lookup-commit xs _ n
      ∙ ap (entry_or (last_named n xs))
          (lookup-insert m (name_of x) n (record { plugin = plugin; extension = x }))
      ∙ entry_or-or_else (last_named n xs) (str_eq n (name_of x)) x (lookup n m)

  -- What one map is after a registration: nothing that was there has changed, and each name has the
  -- last extension that the plugin gives it, as the plugin's own, or what it had before.
  pub record Extended (xs : List A) (before after : Map (RegistryEntry A)) : Type 0 where
    pub kept :
        (n : String) (e : RegistryEntry A) → lookup n before ≡ some e → lookup n after ≡ some e
    pub found : (n : String) → lookup n after ≡ entry_or (last_named n xs) (lookup n before)

  commit-Extended :
      (kind : ExtensionKind) (xs : List A) (m : Map (RegistryEntry A))
      → check_conflicts name_of kind plugin xs m ≡ none
      → Extended xs m (commit name_of plugin xs m)
  commit-Extended kind xs m c = record {
    kept = λ n e there. commit_other xs m n (check_conflicts-none kind xs m n c there) ∙ there;
    found = lookup-commit xs m;
  }

chain_ok :
    {A : Type 0} (a b c d e f : Option RegistryError) (x y : A)
    → (a >> (b >> (c >> (d >> (e >> (f >> ok x)))))) ≡ ok y
    → (a ≡ none) × (b ≡ none) × (c ≡ none) × (d ≡ none) × (e ≡ none) × (f ≡ none) × (x ≡ y)
chain_ok a b c d e f x y h = ground arith

abbrev pub Extends : {X : Type 0} → Plugin X → PluginRegistry X → PluginRegistry X → Type 0
Extends p r r' =
    Extended middleware_name p.name p.middleware r.middleware_map r'.middleware_map
    × Extended extension_name p.name p.composers r.composer_map r'.composer_map
    × Extended extension_name p.name p.stores r.store_map r'.store_map
    × Extended extension_name p.name p.log_sinks r.log_sink_map r'.log_sink_map
    × Extended extension_name p.name p.metrics_exporters r.metrics_exporter_map
        r'.metrics_exporter_map

commit_all-Extends :
    {X : Type 0} (p : Plugin X) (r : PluginRegistry X)
    → check_conflicts middleware_name middleware p.name p.middleware r.middleware_map ≡ none
    → check_conflicts extension_name composer p.name p.composers r.composer_map ≡ none
    → check_conflicts extension_name store p.name p.stores r.store_map ≡ none
    → check_conflicts extension_name log_sink p.name p.log_sinks r.log_sink_map ≡ none
    → check_conflicts extension_name metrics_exporter p.name p.metrics_exporters
        r.metrics_exporter_map
      ≡ none
    → Extends p r (commit_all p r)
unfolding commit_all
commit_all-Extends p r c1 c2 c3 c4 c5 = (
  commit-Extended middleware_name p.name middleware p.middleware r.middleware_map c1,
  commit-Extended extension_name p.name composer p.composers r.composer_map c2,
  commit-Extended extension_name p.name store p.stores r.store_map c3,
  commit-Extended extension_name p.name log_sink p.log_sinks r.log_sink_map c4,
  commit-Extended extension_name p.name metrics_exporter p.metrics_exporters r.metrics_exporter_map
      c5,
)

plugin-recorded :
    {X : Type 0} (p : Plugin X) (r : PluginRegistry X)
    → lookup p.name (commit_all p r).plugins ≡ some p
unfolding commit_all
plugin-recorded p r = rw (lookup-insert r.plugins p.name p.name p, str_eq_refl p.name) refl

-- If a plugin is registered, then no plugin of its name was there, and it is found under its name.
-- In each of the five kinds, every extension that was registered before is found as before under its
-- name, and a name that the plugin gives to extensions of its own leads to the last of them in the
-- plugin's list, as this plugin's; every other name leads where it led before.
pub register-Extends :
    {X : Type 0} (p : Plugin X) (r r' : PluginRegistry X)
    → register p r ≡ ok r'
    → (has p.name r.plugins ≡ false) × (lookup p.name r'.plugins ≡ some p) × Extends p r r'
unfolding register
register-Extends {X} p r r' e =
    let (fresh, c1, c2, c3, c4, c5, same) =
      chain_ok (if has p.name r.plugins then some (already_registered p.name) else none)
        (check_conflicts middleware_name middleware p.name p.middleware r.middleware_map)
        (check_conflicts extension_name composer p.name p.composers r.composer_map)
        (check_conflicts extension_name store p.name p.stores r.store_map)
        (check_conflicts extension_name log_sink p.name p.log_sinks r.log_sink_map)
        (check_conflicts extension_name metrics_exporter p.name p.metrics_exporters
          r.metrics_exporter_map)
        (commit_all p r) r' e in
    (
      ground arith,
      subst (λ (s : PluginRegistry X). lookup p.name s.plugins ≡ some p) same (plugin-recorded p r),
      subst (Extends p r) same (commit_all-Extends p r c1 c2 c3 c4 c5),
    )
