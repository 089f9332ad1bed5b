-- ===== src/Proxy/Providers/Tests.antt =====
-- The provider registry at concrete providers.
use prism_pipe.Prelude.{◌≡◌, refl, none, some, String, [], ◌∷◌, Map, lookup, insert, keys}
use prism_pipe.Proxy.Providers.{ProviderConfig, found, failed, fetched, register_all, get, resolve}
use prism_pipe.Proxy.Providers.Registered.{get-register_all}

abbrev provider : String → String → ProviderConfig
provider name base_url = record {
  name = name;
  base_url = base_url;
  api_key = "k";
  format = none;
  models = none;
  default_model = none;
  timeout = none;
}

abbrev configured : Map ProviderConfig
configured = ("a", provider "" "http://a") ∷ ("b", provider "a" "http://b") ∷ []

resolves : resolve ("a" ∷ []) (register_all configured []).0 ≡ found (provider "a" "http://b" ∷ [])
unfolding resolve register_all insert lookup
resolves = refl

misses :
    resolve ("a" ∷ "c" ∷ []) (register_all configured []).0
    ≡ failed "Provider not found: \"c\". Registered: [a]"
unfolding resolve register_all insert lookup keys
misses = refl

baseless :
    (register_all (("a", provider "" "") ∷ configured) []).1
    ≡ some "Provider \"a\" must have a baseUrl"
unfolding register_all
baseless = refl

last_wins :
    ((register_all configured []).1 ≡ none)
    × (get "a" (register_all configured []).0
        ≡ fetched "a" (register_all configured []).0 (some (provider "a" "http://b")))
last_wins = get-register_all configured [] "a" ((refl, refl), ((refl, refl), tt))
