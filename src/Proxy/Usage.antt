-- ===== src/Proxy/Usage.antt =====
-- src/proxy/usage-grouping.ts, over the usage entries of src/store/interface.ts. An object that
-- `Object.fromEntries` makes is a `Map`; the order of its keys is not that of the object where a key
-- is a number.
pub mod Groups
mod Tests
use prism_pipe.Prelude.{ℕ, Option, none, some, String, List, [], ◌∷◌, ◌++◌, Map, lookup, insert}

pub record UsageLogEntry : Type 0 where
  pub request_id : String
  pub timestamp : ℕ
  pub model : String
  pub provider : Option String
  pub input_tokens : ℕ
  pub output_tokens : ℕ
  pub thinking_tokens : ℕ
  pub cache_read_tokens : ℕ
  pub cache_write_tokens : ℕ
  pub port : Option String
  pub proxy_id : Option String
  pub route_path : Option String
  pub tenant_id : Option String

-- The bucket of a key: a new one, or the one that is there.
abbrev pub bucket_with : Option (List UsageLogEntry) → UsageLogEntry → List UsageLogEntry
bucket_with none entry = entry ∷ []
bucket_with (some bucket) entry = bucket ++ (entry ∷ [])

unfoldable pub put :
    (UsageLogEntry → String) → UsageLogEntry → Map (List UsageLogEntry) → Map (List UsageLogEntry)
put pick_key entry grouped =
    let key = pick_key entry in insert key (bucket_with (lookup key grouped) entry) grouped

-- The loop of both functions.
unfoldable pub group_from :
    (UsageLogEntry → String)
    → List UsageLogEntry
    → Map (List UsageLogEntry)
    → Map (List UsageLogEntry)
unfolding put
group_from pick_key [] grouped = grouped
group_from pick_key (entry ∷ entries) grouped =
    group_from pick_key entries (put pick_key entry grouped)

-- `[...grouped.entries()].map(([key, group]) => [key, f(group)])`
unfoldable pub map_groups :
    {A : Type 0} → (List UsageLogEntry → A) → Map (List UsageLogEntry) → Map A
map_groups f [] = []
map_groups f ((key, group) ∷ rest) = (key, f group) ∷ map_groups f rest

module _ {S : Type 0} where
  unfoldable pub group_usage_by_model : List UsageLogEntry → (List UsageLogEntry → S) → Map S
  unfolding group_from map_groups
  group_usage_by_model entries summarize =
      map_groups summarize (group_from (λ (e : UsageLogEntry). e.model) entries [])

  unfoldable pub group_usage_by_dimension :
      List UsageLogEntry → (UsageLogEntry → String) → (List UsageLogEntry → S) → Map (Map S)
  unfolding group_usage_by_model
  group_usage_by_dimension entries pick_key summarize =
      map_groups (λ group. group_usage_by_model group summarize) (group_from pick_key entries [])
