-- ===== src/Proxy/Ollama/Response.antt =====
-- The responses and stream chunks of src/proxy/transforms/ollama.ts. A chunk that is `null` is
-- `none`; reading gives `none` also outside the types of the source.
use prism_pipe.Prelude.{
  ℕ, ◌+◌, Bool, true, false, Option, none, some, String, List, [], ◌∷◌, ◌++◌, str_eq, trim,
  trim_start, trim_end, Map, lookup, if◌then◌else◌, get_or,
}
use prism_pipe.Core.Canonical.{
  ContentBlock, text, StopReason, stop_sequence, content_filter, unknown, UsageInfo,
  CanonicalResponse, ChunkType, content_delta, tool_use_delta, usage, done, error, Delta,
  CanonicalStreamChunk,
}
use prism_pipe.Proxy.Json.{
  Json, bool, num, str, array, object, nil, cons, end, pair, object_of, Js, string_of, or_default,
  truthy, non_null, as_count, ◌>>=◌,
}
use prism_pipe.Proxy.Fields.{is_true, fields_of, chunk, delta_of}
use prism_pipe.Proxy.OpenAi.Sending.{calls_of}
use prism_pipe.Proxy.OpenAi.Response.{texts_of, read_tool_calls, message_fields}
use prism_pipe.Proxy.OpenAi.Stream.{read_calls, read_delta, call_fields}

-- `Number(v ?? 0)`
abbrev pub read_count : Option Json → Option ℕ
read_count v = as_count (or_default v (num 0))

abbrev pub read_usage : Map Json → Option UsageInfo
read_usage m = do
  i ← read_count (lookup "prompt_eval_count" m)
  o ← read_count (lookup "eval_count" m)
  some (record { input_tokens = i; output_tokens = o; total_tokens = i + o })

abbrev pub stop_reason_of : Bool → StopReason
stop_reason_of true = StopReason.end
stop_reason_of false = unknown

-- `res.stopReason === 'end'`
abbrev pub is_end : StopReason → Bool
is_end StopReason.end = true
is_end StopReason.max_tokens = false
is_end StopReason.tool_use = false
is_end stop_sequence = false
is_end content_filter = false
is_end unknown = false

-- A text that is more than space.
abbrev pub spoken : String → List (ContentBlock Json)
spoken t = if str_eq (trim t) "" then [] else text t ∷ []

module _ (js : Js) where
  unfoldable pub read_text : Option Json → List (ContentBlock Json)
  unfolding trim_start trim_end
  read_text none = []
  read_text (some v) = spoken (string_of js (some v))

  unfoldable pub response_to_canonical : Map Json → Option (CanonicalResponse Json)
  unfolding read_text read_tool_calls
  response_to_canonical r = do
    let msg = fields_of (lookup "message" r)
    calls ← read_tool_calls js (lookup "tool_calls" msg)
    counts ← read_usage r
    some (record {
      id = string_of js (some (or_default (lookup "id" r) (str "")));
      model = string_of js (some (or_default (lookup "model" r) (str "")));
      content = read_text (truthy (lookup "content" msg)) ++ calls;
      stop_reason = stop_reason_of (is_true (lookup "done" r));
      usage = counts;
      provider_extensions = none;
    })

  unfoldable pub response_from_canonical : CanonicalResponse Json → Map Json
  unfolding texts_of calls_of
  response_from_canonical res =
      ("model", str res.model)
      ∷ ("message", object (object_of (message_fields js res.content)))
      ∷ ("done", bool (is_end res.stop_reason))
      ∷ ("prompt_eval_count", num res.usage.input_tokens)
      ∷ ("eval_count", num res.usage.output_tokens)
      ∷ []

  -- The final chunk, by its two counts.
  abbrev pub read_done : Option Json → Option Json → Map Json → Option CanonicalStreamChunk
  read_done none none c = some (chunk done none none)
  read_done (some i) o c = do u ← read_usage c; some (chunk usage none (some u))
  read_done none (some o) c = do u ← read_usage c; some (chunk usage none (some u))

  unfoldable pub chunk_to_canonical : Map Json → Option CanonicalStreamChunk
  unfolding read_calls
  chunk_to_canonical c =
      if is_true (lookup "done" c)
      then read_done (non_null (lookup "prompt_eval_count" c)) (non_null (lookup "eval_count" c)) c
      else (let msg = fields_of (lookup "message" c) in
          read_delta js (truthy (lookup "content" msg)) (truthy (lookup "tool_calls" msg)))

abbrev pub message_chunk : String → Json → Map Json
message_chunk name value =
    ("message", object (pair "role" (str "assistant") (pair name value end))) ∷ []

abbrev pub write_counts : Option UsageInfo → Option (Map Json)
write_counts none = none
write_counts (some u) = some (
    ("done", bool true)
    ∷ ("prompt_eval_count", num u.input_tokens)
    ∷ ("eval_count", num u.output_tokens)
    ∷ [])

abbrev pub write_by : ChunkType → Delta → Option UsageInfo → Option (Map Json)
write_by done d u = some (("done", bool true) ∷ [])
write_by content_delta d u = some (message_chunk "content" (str (get_or d.text "")))
write_by tool_use_delta d u =
    some (message_chunk "tool_calls" (array (cons (object (object_of (call_fields d))) nil)))
write_by usage d u = write_counts u
write_by error d u = none

unfoldable pub chunk_from_canonical : CanonicalStreamChunk → Option (Map Json)
chunk_from_canonical c = write_by c.type (delta_of c) c.usage
