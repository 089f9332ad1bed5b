-- ===== src/Proxy/Fields.antt =====
-- The fields of a request that the transforms of src/proxy/transforms read and write alike.
pub mod Trip
use prism_pipe.Prelude.{
  get_or, Bool, true, false, not, Option, none, some, String, List, [], ◌∷◌, str_eq, Map, map,
}
use prism_pipe.Core.Canonical.{UsageInfo, ChunkType, Delta, CanonicalStreamChunk}
use prism_pipe.Compose.Chain.{present}
use prism_pipe.Proxy.Json.{
  Json, bool, str, array, object, end, array_of, object_of, entries, Js, string_of, truthy,
  as_array, as_text, ◌>>=◌, traverse,
}

-- `{}`
abbrev pub empty_object : Json
empty_object = object end

abbrev pub is_true : Option Json → Bool
is_true (some (bool b)) = b
is_true _ = false

-- `typeof v === 'string' && v === t`
abbrev pub is_text : Option Json → String → Bool
is_text (some (str s)) t = str_eq s t
is_text _ t = false

abbrev pub read_texts : Json → Option (List String)
read_texts v = do vs ← as_array v; traverse (λ t. as_text (some t)) vs

-- `Object.keys(extras).length > 0`
abbrev pub extras_of : Map Json → Option Json
extras_of [] = none
extras_of (e ∷ es) = some (object (object_of (e ∷ es)))

abbrev pub is_set : Option Json → Option Bool
is_set none = none
is_set (some v) = some true

-- `if (r.system) req.systemPrompt = String(r.system)`
abbrev pub read_system : Js → Option Json → Option String
read_system js o = elim (truthy o) [ none ↦ none | some v ↦ some (string_of js (some v)) ]

abbrev pub write_system : Option String → Option Json
write_system prompt = elim (present prompt) [ none ↦ none | some t ↦ some (str t) ]

abbrev pub write_texts : Option (List String) → Option Json
write_texts none = none
write_texts (some ts) = some (array (array_of (map (λ (t : String). str t) ts)))

abbrev pub write_stream : Option Bool → Option Json
write_stream (some true) = some (bool true)
write_stream (some false) = none
write_stream none = none

-- `Object.entries(req.extras)`
abbrev pub entries_of : Option Json → Map Json
entries_of (some (object ps)) = entries ps
entries_of _ = []

-- The fields of `v?.…`
abbrev pub fields_of : Option Json → Map Json
fields_of (some (object ps)) = entries ps
fields_of _ = []

-- Stream chunks in the canonical format.
abbrev pub no_delta : Delta
no_delta = record { text = none; tool_use_id = none; tool_name = none; input_json = none }

abbrev pub chunk : ChunkType → Option Delta → Option UsageInfo → CanonicalStreamChunk
chunk type delta u = record { type = type; delta = delta; usage = u; error = none }

-- A field of `chunk.delta?`
abbrev pub delta_of : CanonicalStreamChunk → Delta
delta_of c = get_or c.delta no_delta
