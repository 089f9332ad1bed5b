-- ===== src/Proxy/Providers/Registered.antt =====
-- What src/proxy/provider-registry.ts resolves after it has registered a record of providers.
use prism_pipe.Prelude.{
  ◌≡◌, refl, ap, ◌∙◌, false, Option, none, some, String, str_eq, [], ◌∷◌, Map, lookup, insert,
  lookup-insert, All, if◌then◌else◌,
}
use prism_pipe.Proxy.Providers.{ProviderConfig, register, named, register_all, fetched, get}

-- A provider that is registered without an error, under this name.
abbrev pub IsNamed : String × ProviderConfig → Type 0
IsNamed e = (str_eq (named e.0 e.1).name "" ≡ false) × (str_eq (named e.0 e.1).base_url "" ≡ false)

-- The last of the configurations of a name, or what was registered before.
abbrev pub last_of : String → Map ProviderConfig → Option ProviderConfig → Option ProviderConfig
last_of name [] before = before
last_of name (e ∷ es) before =
    last_of name es (if str_eq name (named e.0 e.1).name then some (named e.0 e.1) else before)

register-IsNamed :
    (e : String × ProviderConfig) (providers : Map ProviderConfig)
    → IsNamed e
    → register (named e.0 e.1) providers
      ≡ (insert (named e.0 e.1).name (named e.0 e.1) providers, none)
unfolding register
register-IsNamed e providers (filled, based) = rw (filled, based) refl

register_all-IsNamed :
    (e : String × ProviderConfig) (es providers : Map ProviderConfig)
    → IsNamed e
    → register_all (e ∷ es) providers
      ≡ register_all es (insert (named e.0 e.1).name (named e.0 e.1) providers)
unfolding register_all
register_all-IsNamed e es providers h =
    let done = register-IsNamed e providers h in
    rw (register_all, done) (ap (λ p. register_all es p.0) done)

lookup-register_all :
    (configs : Map ProviderConfig) (providers : Map ProviderConfig) (name : String)
    → All IsNamed configs
    → ((register_all configs providers).1 ≡ none)
      × (lookup name (register_all configs providers).0
          ≡ last_of name configs (lookup name providers))
unfolding register_all
lookup-register_all [] providers name h = (refl, refl)
lookup-register_all (e ∷ es) providers name h =
    let config = named e.0 e.1 in
    let rest = lookup-register_all es (insert config.name config providers) name h.1 in
    rw (register_all-IsNamed e es providers h.0)
      (rest.0, rest.1 ∙ ap (last_of name es) (lookup-insert providers config.name name config))

-- A record of providers, each with a name, its own or its key, and a base URL, is registered without
-- an error, and a name is then found exactly as the last configuration of that name, or else as what
-- was registered under it before.
pub get-register_all :
    (configs : Map ProviderConfig) (providers : Map ProviderConfig) (name : String)
    → All IsNamed configs
    → ((register_all configs providers).1 ≡ none)
      × (get name (register_all configs providers).0
          ≡ fetched name
              (register_all configs providers).0
              (last_of name configs (lookup name providers)))
unfolding get
get-register_all configs providers name h =
    let k = lookup-register_all configs providers name h in
    (k.0, ap (fetched name (register_all configs providers).0) k.1)
