-- ===== src/Proxy/OpenAi/StreamTrip.antt =====
-- What of a stream chunk comes back through src/proxy/transforms/openai.ts.
use prism_pipe.Prelude.{◌≡◌, refl, Option, none, some, String, [], lookup, get_or, arith}
use prism_pipe.Core.Canonical.{
  UsageInfo, ChunkType, content_delta, tool_use_delta, usage, done, error, Delta,
  CanonicalStreamChunk,
}
use prism_pipe.Compose.Chain.{present}
use prism_pipe.Proxy.Json.{str, entries, object_of, Js, truthy, ◌>>=◌, entries-object_of}
use prism_pipe.Proxy.Json.Extras.{opt, lookup-opt}
use prism_pipe.Proxy.Fields.{no_delta, chunk, delta_of}
use prism_pipe.Proxy.Fields.Trip.{first-none}
use prism_pipe.Proxy.OpenAi.Stream.{
  text_or_none, read_calls, read_delta, chunk_to_canonical, opt_text, function_fields, write_by,
  chunk_from_canonical,
}

-- The chunk that a client of the OpenAI format sees.
abbrev pub back_text : Option String → Option CanonicalStreamChunk
back_text none = none
back_text (some t) = some (chunk content_delta (some (record no_delta { text = some t })) none)

abbrev pub back_counts : Option UsageInfo → Option CanonicalStreamChunk
back_counts none = none
back_counts (some u) = some (chunk usage none (some u))

abbrev pub back_chunk : ChunkType → Delta → Option UsageInfo → Option CanonicalStreamChunk
back_chunk done d u = some (chunk done none none)
back_chunk content_delta d u = back_text (present d.text)
back_chunk tool_use_delta d u = some (
    chunk tool_use_delta
      (some (record no_delta {
        tool_use_id = present d.tool_use_id;
        tool_name = present d.tool_name;
        input_json = present d.input_json;
      }))
      none)
back_chunk usage d u = back_counts u
back_chunk error d u = none

pub text_or_none-opt_text :
    (js : Js) (t : Option String) → text_or_none js (opt_text (present t)) ≡ present t
text_or_none-opt_text js none = refl
text_or_none-opt_text js (some t) = ground arith

pub back_text-lem :
    (js : Js) (t : Option String)
    → read_delta js (truthy (some (str (get_or t "")))) none ≡ back_text (present t)
unfolding read_calls
back_text-lem js none = refl
back_text-lem js (some t) = ground arith

pub function_name :
    (d : Delta)
    → lookup "name" (entries (object_of (function_fields d))) ≡ opt_text (present d.tool_name)
unfolding lookup
function_name d = rw (entries-object_of (function_fields d)) (simp (lookup-opt, first-none))

pub function_arguments :
    (d : Delta)
    → lookup "arguments" (entries (object_of (function_fields d))) ≡ opt_text (present d.input_json)
unfolding lookup
function_arguments d = rw (entries-object_of (function_fields d)) (simp (lookup-opt, first-none))

pub call_id :
    (d : Delta)
    → lookup "id" (entries (object_of (opt "id" (opt_text (present d.tool_use_id)) [])))
      ≡ opt_text (present d.tool_use_id)
unfolding lookup
call_id d =
    rw (entries-object_of (opt "id" (opt_text (present d.tool_use_id)) []))
      (simp (lookup-opt, first-none))

back_chunk-lem :
    (js : Js) (type : ChunkType) (d : Delta) (u : Option UsageInfo)
    → (do v ← write_by type d u; chunk_to_canonical js v) ≡ back_chunk type d u
unfolding chunk_to_canonical lookup
back_chunk-lem js done d u = refl
back_chunk-lem js content_delta d u = back_text-lem js d.text
back_chunk-lem js tool_use_delta d u =
    rw
      (
        function_name d,
        function_arguments d,
        call_id d,
        text_or_none-opt_text js d.tool_name,
        text_or_none-opt_text js d.input_json,
        text_or_none-opt_text js d.tool_use_id,
      )
      refl
back_chunk-lem js usage d none = refl
back_chunk-lem js usage d (some u) = refl
back_chunk-lem js error d u = refl

-- A chunk that is written in the OpenAI format and read again: the end of the stream, a usage, and a
-- text that is not empty come back; of a tool chunk, the id, the name and the piece of the input, each
-- unless it is empty. Errors are not written, and neither is a usage chunk without a usage.
pub chunk_to_canonical-chunk_from_canonical_open_ai :
    (js : Js) (c : CanonicalStreamChunk)
    → (do v ← chunk_from_canonical c; chunk_to_canonical js v)
      ≡ back_chunk c.type (delta_of c) c.usage
unfolding chunk_from_canonical
chunk_to_canonical-chunk_from_canonical_open_ai js c = back_chunk-lem js c.type (delta_of c) c.usage
