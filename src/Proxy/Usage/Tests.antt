-- ===== src/Proxy/Usage/Tests.antt =====
-- The grouping of usage at concrete entries.
use prism_pipe.Prelude.{ℕ, ◌+◌, ◌≡◌, refl, none, some, String, List, [], ◌∷◌, lookup, insert}
use prism_pipe.Proxy.Json.{◌>>=◌}
use prism_pipe.Proxy.Usage.{UsageLogEntry, group_usage_by_dimension}
use prism_pipe.Proxy.Usage.Groups.{lookup-group_usage_by_dimension}

abbrev entry : String → String → ℕ → UsageLogEntry
entry port model tokens = record {
  request_id = "r";
  timestamp = 0;
  model = model;
  provider = none;
  input_tokens = tokens;
  output_tokens = 0;
  thinking_tokens = 0;
  cache_read_tokens = 0;
  cache_write_tokens = 0;
  port = some port;
  proxy_id = none;
  route_path = none;
  tenant_id = none;
}

abbrev port_of : UsageLogEntry → String
port_of e = elim e.port [ none ↦ "unknown" | some port ↦ port ]

abbrev total : List UsageLogEntry → ℕ
total [] = 0
total (e ∷ es) = e.input_tokens + total es

abbrev logged : List UsageLogEntry
logged = entry "80" "m" 1 ∷ entry "81" "m" 2 ∷ entry "80" "n" 4 ∷ entry "80" "m" 8 ∷ []

grouped :
    group_usage_by_dimension logged port_of total
    ≡ ("80", ("m", 9) ∷ ("n", 4) ∷ []) ∷ ("81", ("m", 2) ∷ []) ∷ []
unfolding group_usage_by_dimension insert lookup
grouped = refl

lookup-group_usage_by_dimension_example :
    (do models ← lookup "80" (group_usage_by_dimension logged port_of total); lookup "m" models)
    ≡ some 9
lookup-group_usage_by_dimension_example =
    lookup-group_usage_by_dimension total port_of "80" "m" logged
