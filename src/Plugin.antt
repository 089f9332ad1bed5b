-- ===== src/Plugin.antt =====
-- src/plugin/registry.ts with the types of src/plugin/types.ts. What an extension does is code of
-- the plugin, of type `X`; so are the lifecycle hooks and the config schema, which the registry does
-- not touch. Priorities are natural numbers.
pub mod Conflicts
pub mod Priority
mod Tests
use prism_pipe.Prelude.{
  ℕ, Bool, true, false, Option, none, some, String, List, [], ◌∷◌, Map, lookup, insert, has, keys,
  values, leb, get_or, map, if◌then◌else◌,
}

pub data ExtensionKind : Type 0 where
  middleware composer store log_sink metrics_exporter : ExtensionKind

pub record NamedMiddleware (X : Type 0) : Type 0 where
  pub name : String
  pub middleware : X
  pub priority : Option ℕ

-- A composer, a store backend, a log sink or a metrics exporter.
pub record Extension (X : Type 0) : Type 0 where
  pub name : String
  pub factory : X

pub record Plugin (X : Type 0) : Type 0 where
  pub name : String
  pub version : String
  pub middleware : List (NamedMiddleware X)
  pub composers : List (Extension X)
  pub stores : List (Extension X)
  pub log_sinks : List (Extension X)
  pub metrics_exporters : List (Extension X)

pub record RegistryEntry (A : Type 0) : Type 0 where
  pub plugin : String
  pub extension : A

pub record PluginRegistry (X : Type 0) : Type 0 where
  pub plugins : Map (Plugin X)
  pub middleware_map : Map (RegistryEntry (NamedMiddleware X))
  pub composer_map : Map (RegistryEntry (Extension X))
  pub store_map : Map (RegistryEntry (Extension X))
  pub log_sink_map : Map (RegistryEntry (Extension X))
  pub metrics_exporter_map : Map (RegistryEntry (Extension X))

pub data RegistryError : Type 0 where
  already_registered : String → RegistryError
  naming_conflict :
      (kind : ExtensionKind) (name existing_plugin conflicting_plugin : String) → RegistryError

pub data Result (A : Type 0) : Type 0 where
  ok : A → Result A
  err : RegistryError → Result A

infixl 5 ◌>>◌
abbrev pub ◌>>◌ : {A : Type 0} → Option RegistryError → Result A → Result A
none >> k = k
some e >> k = err e

abbrev pub middleware_name : {X : Type 0} → NamedMiddleware X → String
middleware_name x = x.name

abbrev pub extension_name : {X : Type 0} → Extension X → String
extension_name x = x.name

module _ {A : Type 0} (name_of : A → String) where
  -- The loop over `checkConflict` for one kind: the error that it throws.
  unfoldable pub check_conflicts :
      ExtensionKind → String → List A → Map (RegistryEntry A) → Option RegistryError
  check_conflicts kind plugin [] m = none
  check_conflicts kind plugin (x ∷ xs) m = elim (lookup (name_of x) m) [
    | some existing ↦ some (naming_conflict kind (name_of x) existing.plugin plugin)
    | none ↦ check_conflicts kind plugin xs m
  ]

  -- The loop that commits the extensions of one kind.
  unfoldable pub commit : String → List A → Map (RegistryEntry A) → Map (RegistryEntry A)
  commit plugin [] m = m
  commit plugin (x ∷ xs) m =
      commit plugin xs (insert (name_of x) (record { plugin = plugin; extension = x }) m)

module _ {X : Type 0} where
  unfoldable pub commit_all : Plugin X → PluginRegistry X → PluginRegistry X
  unfolding commit
  commit_all p r = record {
    plugins = insert p.name p r.plugins;
    middleware_map = commit middleware_name p.name p.middleware r.middleware_map;
    composer_map = commit extension_name p.name p.composers r.composer_map;
    store_map = commit extension_name p.name p.stores r.store_map;
    log_sink_map = commit extension_name p.name p.log_sinks r.log_sink_map;
    metrics_exporter_map = commit extension_name p.name p.metrics_exporters r.metrics_exporter_map;
  }

  -- `register`: an error leaves the registry as it was.
  unfoldable pub register : Plugin X → PluginRegistry X → Result (PluginRegistry X)
  unfolding check_conflicts commit_all
  register p r = do
    if has p.name r.plugins then some (already_registered p.name) else none
    check_conflicts middleware_name middleware p.name p.middleware r.middleware_map
    check_conflicts extension_name composer p.name p.composers r.composer_map
    check_conflicts extension_name store p.name p.stores r.store_map
    check_conflicts extension_name log_sink p.name p.log_sinks r.log_sink_map
    check_conflicts extension_name metrics_exporter p.name p.metrics_exporters
        r.metrics_exporter_map
    ok (commit_all p r)

  -- `allMiddleware`: the stable sort of `Array.prototype.sort` by priority, 100 by default.
  abbrev pub priority_of : NamedMiddleware X → ℕ
  priority_of m = get_or m.priority 100

  unfoldable pub place : NamedMiddleware X → List (NamedMiddleware X) → List (NamedMiddleware X)
  place m [] = m ∷ []
  place m (n ∷ ns) = if leb (priority_of m) (priority_of n) then m ∷ n ∷ ns else n ∷ place m ns

  unfoldable pub sort : List (NamedMiddleware X) → List (NamedMiddleware X)
  unfolding place
  sort [] = []
  sort (m ∷ ms) = place m (sort ms)

  unfoldable pub all_middleware : PluginRegistry X → List (NamedMiddleware X)
  unfolding sort
  all_middleware r =
      sort (map (λ (e : RegistryEntry (NamedMiddleware X)). e.extension) (values r.middleware_map))
