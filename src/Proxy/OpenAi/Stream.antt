-- ===== src/Proxy/OpenAi/Stream.antt =====
-- `streamChunkToCanonical` and `streamChunkFromCanonical` of src/proxy/transforms/openai.ts. A chunk
-- that is `null` is `none`; reading gives `none` also outside the types of the source.
use prism_pipe.Prelude.{
  Option, none, some, String, [], ◌∷◌, trim, trim_start, trim_end, str_eq, Map, lookup,
  if◌then◌else◌, get_or,
}
use prism_pipe.Core.Canonical.{
  UsageInfo, ChunkType, content_delta, tool_use_delta, usage, done, error, Delta,
  CanonicalStreamChunk,
}
use prism_pipe.Compose.Chain.{present}
use prism_pipe.Proxy.Json.{
  Json, null, bool, num, number, str, array, object, nil, cons, end, pair, entries, object_of, Js,
  string_of, or_default, truthy, as_object, as_array, ◌>>=◌,
}
use prism_pipe.Proxy.Json.Extras.{opt}
use prism_pipe.Proxy.Fields.{fields_of, no_delta, chunk, delta_of}
use prism_pipe.Proxy.OpenAi.Response.{read_usage, write_usage, first_of}

module _ (js : Js) where
  -- `v ? String(v) : undefined`
  abbrev pub text_or_none : Option Json → Option String
  text_or_none v = elim (truthy v) [ none ↦ none | some t ↦ some (string_of js (some t)) ]

  abbrev pub read_call_delta : Map Json → Delta
  read_call_delta tc =
      let fn = fields_of (lookup "function" tc) in
      record no_delta {
        tool_use_id = text_or_none (lookup "id" tc);
        tool_name = text_or_none (lookup "name" fn);
        input_json = text_or_none (lookup "arguments" fn);
      }

  unfoldable pub read_calls : Option Json → Option CanonicalStreamChunk
  read_calls none = none
  read_calls (some v) = do
    vs ← as_array v
    some (chunk tool_use_delta (some (read_call_delta (fields_of (first_of vs)))) none)

  abbrev pub read_delta : Option Json → Option Json → Option CanonicalStreamChunk
  read_delta (some t) calls =
      some
        (chunk content_delta (some (record no_delta { text = some (string_of js (some t)) })) none)
  read_delta none calls = read_calls calls

  abbrev pub read_counts : Option Json → Option CanonicalStreamChunk
  read_counts none = none
  read_counts (some v) = do
    counts ← as_object v
    u ← read_usage counts
    some (chunk usage none (some u))

  abbrev pub read_choice : Option Json → Option Json → Option CanonicalStreamChunk
  read_choice none counts = read_counts (truthy counts)
  read_choice (some choice) counts =
      let delta = fields_of (lookup "delta" (fields_of (some choice))) in
      read_delta (truthy (lookup "content" delta)) (truthy (lookup "tool_calls" delta))

  abbrev pub read_fields : Map Json → Option CanonicalStreamChunk
  read_fields c = do
    choices ← as_array (or_default (lookup "choices" c) (array nil))
    read_choice (truthy (first_of choices)) (lookup "usage" c)

  unfoldable pub chunk_to_canonical : Json → Option CanonicalStreamChunk
  unfolding read_calls trim_start trim_end
  chunk_to_canonical null = some (chunk done none none)
  chunk_to_canonical (str s) =
      if str_eq (trim s) "[DONE]" then some (chunk done none none) else none
  chunk_to_canonical (object ps) = read_fields (entries ps)
  chunk_to_canonical (bool b) = none
  chunk_to_canonical (num n) = none
  chunk_to_canonical (number t) = none
  chunk_to_canonical (array vs) = none

abbrev pub choices_chunk : Json → Json
choices_chunk delta = object (
    pair "object" (str "chat.completion.chunk") (
      pair "choices" (array (cons (object (pair "index" (num 0) (pair "delta" delta end))) nil))
        end))

abbrev pub opt_text : Option String → Option Json
opt_text none = none
opt_text (some t) = some (str t)

abbrev pub function_fields : Delta → Map Json
function_fields d =
    opt "name" (opt_text (present d.tool_name))
      (opt "arguments" (opt_text (present d.input_json)) [])

abbrev pub call_fields : Delta → Map Json
call_fields d =
    ("type", str "function")
    ∷ ("function", object (object_of (function_fields d)))
    ∷ opt "id" (opt_text (present d.tool_use_id)) []

abbrev pub write_counts : Option UsageInfo → Option Json
write_counts none = none
write_counts (some u) =
    some (object (pair "object" (str "chat.completion.chunk") (pair "usage" (write_usage u) end)))

abbrev pub write_by : ChunkType → Delta → Option UsageInfo → Option Json
write_by done d u = some (str "[DONE]")
write_by content_delta d u =
    some (choices_chunk (object (pair "content" (str (get_or d.text "")) end)))
write_by tool_use_delta d u = some (
    choices_chunk
      (object (pair "tool_calls" (array (cons (object (object_of (call_fields d))) nil)) end)))
write_by usage d u = write_counts u
write_by error d u = none

unfoldable pub chunk_from_canonical : CanonicalStreamChunk → Option Json
chunk_from_canonical c = write_by c.type (delta_of c) c.usage
