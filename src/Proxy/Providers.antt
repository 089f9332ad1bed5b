-- ===== src/Proxy/Providers.antt =====
-- src/proxy/provider-registry.ts: the providers of a proxy by their names. A method that throws gives
-- the text of its error; what it has changed before stays.
pub mod Registered
mod Tests
use prism_pipe.Prelude.{
  ℕ, Option, none, some, String, str_append, str_eq, List, [], ◌∷◌, Map, lookup, insert, keys, has,
  if◌then◌else◌, Bool,
}

pub record ProviderConfig : Type 0 where
  pub name : String
  pub base_url : String
  pub api_key : String
  pub format : Option String
  pub models : Option (Map String)
  pub default_model : Option String
  pub timeout : Option ℕ

pub data Fetched (A : Type 0) : Type 0 where
  found : A → Fetched A
  failed : String → Fetched A

unfoldable pub register : ProviderConfig → Map ProviderConfig → Map ProviderConfig × Option String
register config providers =
    if str_eq config.name ""
    then (providers, some "Provider config must have a name")
    else if str_eq config.base_url ""
    then (
      providers,
      some (str_append "Provider \"" (str_append config.name "\" must have a baseUrl")),
    )
    else (insert config.name config providers, none)

-- `{ ...config, name: config.name || name }`
abbrev pub named : String → ProviderConfig → ProviderConfig
named name config = if str_eq config.name "" then record config { name = name } else config

unfoldable pub register_all :
    Map ProviderConfig → Map ProviderConfig → Map ProviderConfig × Option String
unfolding register
register_all [] providers = (providers, none)
register_all ((name, config) ∷ rest) providers =
    let (registered, thrown) = register (named name config) providers in
    elim thrown [ some message ↦ (registered, some message) | none ↦ register_all rest registered ]

-- `names.join(', ')`
abbrev pub join_names : List String → String
join_names [] = ""
join_names (n ∷ []) = n
join_names (n ∷ m ∷ ns) = str_append n (str_append ", " (join_names (m ∷ ns)))

abbrev pub fetched : String → Map ProviderConfig → Option ProviderConfig → Fetched ProviderConfig
fetched name providers (some config) = found config
fetched name providers none = failed (
    str_append "Provider not found: \"" (
      str_append name
        (str_append "\". Registered: [" (str_append (join_names (keys providers)) "]"))))

unfoldable pub get : String → Map ProviderConfig → Fetched ProviderConfig
get name providers = fetched name providers (lookup name providers)

abbrev pub consed : ProviderConfig → Fetched (List ProviderConfig) → Fetched (List ProviderConfig)
consed config (found configs) = found (config ∷ configs)
consed config (failed message) = failed message

-- `names.map((n) => this.get(n))`
unfoldable pub resolve : List String → Map ProviderConfig → Fetched (List ProviderConfig)
unfolding get
resolve [] providers = found []
resolve (name ∷ names) providers = elim (get name providers) [
  | failed message ↦ failed message
  | found config ↦ consed config (resolve names providers)
]
