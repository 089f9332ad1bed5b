-- ===== src/Plugin/Tests.antt =====
-- Runs of the registry, and its theorems at concrete plugins.
use prism_pipe.Prelude.{
  ℕ, ◌≡◌, refl, false, Option, none, some, String, List, [], ◌∷◌, insert, lookup, has, map, values,
}
use prism_pipe.Plugin.{
  middleware, NamedMiddleware, Plugin, RegistryEntry, PluginRegistry, already_registered,
  naming_conflict, ok, err, check_conflicts, commit, commit_all, register, place, sort,
  all_middleware,
}
use prism_pipe.Plugin.Conflicts.{Extends, register-Extends}
use prism_pipe.Plugin.Priority.{Sorted, of_priority, all_middleware-Sorted}

abbrev mw : String → Option ℕ → NamedMiddleware ℕ
mw name priority = record { name = name; middleware = 0; priority = priority }

abbrev bundle : String → List (NamedMiddleware ℕ) → Plugin ℕ
bundle name ms = record {
  name = name;
  version = "1.0.0";
  middleware = ms;
  composers = [];
  stores = record { name = "redis"; factory = 7 } ∷ [];
  log_sinks = [];
  metrics_exporters = [];
}

abbrev empty : PluginRegistry ℕ
empty = record {
  plugins = [];
  middleware_map = [];
  composer_map = [];
  store_map = [];
  log_sink_map = [];
  metrics_exporter_map = [];
}

abbrev audit : Plugin ℕ
audit = bundle "audit" (mw "trace" none ∷ mw "mask" (some 5) ∷ mw "count" none ∷ [])

abbrev after : PluginRegistry ℕ
after = commit_all audit empty

registry_runs : Unit {0}
unfolding register check_conflicts commit commit_all place sort all_middleware lookup insert has
registry_runs = tt

audit-registers : register audit empty ≡ ok after
unfolding registry_runs
audit-registers = refl

audit-twice : register audit after ≡ err (already_registered "audit")
unfolding registry_runs
audit-twice = refl

same_name :
    register (bundle "other" (mw "mask" none ∷ [])) after
    ≡ err (naming_conflict middleware "mask" "audit" "other")
unfolding registry_runs
same_name = refl

by_priority : all_middleware after ≡ mw "mask" (some 5) ∷ mw "trace" none ∷ mw "count" none ∷ []
unfolding registry_runs values
by_priority = refl

register-Extends_example :
    (has "audit" (empty.plugins) ≡ false)
    × (lookup "audit" (after.plugins) ≡ some audit)
    × Extends audit empty after
register-Extends_example = register-Extends audit empty after audit-registers

all_middleware-Sorted_example :
    Sorted (all_middleware after)
    × ((k : ℕ)
        → of_priority k (all_middleware after)
          ≡ of_priority k (
              map
                (λ (e : RegistryEntry (NamedMiddleware ℕ)). e.extension)
                (values after.middleware_map)))
all_middleware-Sorted_example = all_middleware-Sorted after
