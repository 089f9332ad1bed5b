-- ===== src/Proxy/Ollama/ResponseTrip.antt =====
-- What of a response and of a stream chunk comes back through src/proxy/transforms/ollama.ts.
use prism_pipe.Prelude.{
  ◌+◌, ◌≡◌, refl, Option, none, some, String, List, [], ◌∷◌, ◌++◌, str_eq, lookup, map, All, eq_iff,
  Bool-cases, inl, inr,
}
use prism_pipe.Core.Canonical.{
  UsageInfo, CanonicalResponse, ChunkType, content_delta, tool_use_delta, usage, done, error, Delta,
  CanonicalStreamChunk,
}
use prism_pipe.Compose.Chain.{present}
use prism_pipe.Proxy.Json.{Json, Js, truthy, ◌>>=◌}
use prism_pipe.Proxy.Fields.{no_delta, chunk, delta_of}
use prism_pipe.Proxy.OpenAi.Sending.{calls_of}
use prism_pipe.Proxy.OpenAi.Messages.{call_block, Parses}
use prism_pipe.Proxy.OpenAi.Response.{texts_of, join, write_texts}
use prism_pipe.Proxy.OpenAi.ResponseTrip.{said_content, said_calls, read_tool_calls-write_calls}
use prism_pipe.Proxy.OpenAi.StreamTrip.{
  back_text, back_text-lem, text_or_none-opt_text, function_name, function_arguments, call_id,
}
use prism_pipe.Proxy.Ollama.Response.{
  stop_reason_of, is_end, spoken, read_text, response_to_canonical, response_from_canonical,
  chunk_to_canonical, write_by, chunk_from_canonical,
}

abbrev pub back_response : CanonicalResponse Json → CanonicalResponse Json
back_response res = record res {
  id = "";
  content = spoken (join (texts_of res.content)) ++ map call_block (calls_of res.content);
  stop_reason = stop_reason_of (is_end res.stop_reason);
  usage = record (res.usage) { total_tokens = res.usage.input_tokens + res.usage.output_tokens };
  provider_extensions = none;
}

read_text-write_texts :
    (js : Js) (ts : List String) → read_text js (truthy (write_texts ts)) ≡ spoken (join ts)
unfolding read_text
read_text-write_texts js [] = refl
read_text-write_texts js (t ∷ ts) = elim (Bool-cases (str_eq (join (t ∷ ts)) "")) [
  | inl empty ↦ rw ((eq_iff (join (t ∷ ts)) "").0 empty) refl
  | inr filled ↦ rw filled refl
]

-- Of a response, the model, the counts of tokens and the texts, joined to one unless that is only
-- space, with the tool calls behind it, come back from the Ollama format, where the JSON of each input
-- is read as that input. The id is lost, the total is the sum of the two counts, and every stop
-- reason but `end` becomes `unknown`.
pub response_to_canonical-response_from_canonical_ollama :
    (js : Js) (res : CanonicalResponse Json)
    → All (Parses js) (calls_of res.content)
    → response_to_canonical js (response_from_canonical js res) ≡ some (back_response res)
unfolding response_to_canonical response_from_canonical lookup
response_to_canonical-response_from_canonical_ollama js res p =
    rw
      (
        said_content js res.content,
        said_calls js res.content,
        read_text-write_texts js (texts_of res.content),
        read_tool_calls-write_calls js (calls_of res.content) p,
      )
      refl

-- The chunk that a client of the Ollama format sees.
abbrev pub back_counts : Option UsageInfo → Option CanonicalStreamChunk
back_counts none = none
back_counts (some u) =
    some (chunk usage none (some (record u { total_tokens = u.input_tokens + u.output_tokens })))

abbrev pub back_chunk : ChunkType → Delta → Option UsageInfo → Option CanonicalStreamChunk
back_chunk done d u = some (chunk done none none)
back_chunk content_delta d u = back_text (present d.text)
back_chunk tool_use_delta d u = some (
    chunk tool_use_delta
      (some (record no_delta {
        tool_use_id = present d.tool_use_id;
        tool_name = present d.tool_name;
        input_json = present d.input_json;
      }))
      none)
back_chunk usage d u = back_counts u
back_chunk error d u = none

back_chunk-lem :
    (js : Js) (type : ChunkType) (d : Delta) (u : Option UsageInfo)
    → (do v ← write_by type d u; chunk_to_canonical js v) ≡ back_chunk type d u
unfolding chunk_to_canonical lookup
back_chunk-lem js done d u = refl
back_chunk-lem js content_delta d u = back_text-lem js d.text
back_chunk-lem js tool_use_delta d u =
    rw
      (
        function_name d,
        function_arguments d,
        call_id d,
        text_or_none-opt_text js d.tool_name,
        text_or_none-opt_text js d.input_json,
        text_or_none-opt_text js d.tool_use_id,
      )
      refl
back_chunk-lem js usage d none = refl
back_chunk-lem js usage d (some u) = refl
back_chunk-lem js error d u = refl

-- A chunk that is written in the Ollama format and read again: the end of the stream, a usage, with
-- the sum as its total, and a text that is not empty come back; of a tool chunk, the id, the name and
-- the piece of the input, each unless it is empty. Errors are not written.
pub chunk_to_canonical-chunk_from_canonical_ollama :
    (js : Js) (c : CanonicalStreamChunk)
    → (do v ← chunk_from_canonical c; chunk_to_canonical js v)
      ≡ back_chunk c.type (delta_of c) c.usage
unfolding chunk_from_canonical
chunk_to_canonical-chunk_from_canonical_ollama js c = back_chunk-lem js c.type (delta_of c) c.usage
