-- ===== src/Proxy/Anthropic/Stream.antt =====
-- `streamChunkToCanonical` and `streamChunkFromCanonical` of src/proxy/transforms/anthropic.ts. A
-- chunk that is `null` is `none`; reading gives `none` also outside the types of the source.
use prism_pipe.Prelude.{◌≡◌, refl, Option, none, some, String, Map, lookup, if◌then◌else◌, get_or}
use prism_pipe.Core.Canonical.{
  ChunkType, content_delta, tool_use_delta, usage, done, error, Delta, CanonicalStreamChunk,
}
use prism_pipe.Compose.Chain.{present}
use prism_pipe.Proxy.Json.{
  Json, str, object, end, pair, Js, string_of, or_default, as_object, ◌>>=◌, entries,
}
use prism_pipe.Proxy.Fields.{empty_object, is_text, fields_of, no_delta, chunk, delta_of}
use prism_pipe.Proxy.Anthropic.Response.{read_usage}

module _ (js : Js) where
  abbrev pub block_delta : Map Json → Option CanonicalStreamChunk
  block_delta delta =
      let type = lookup "type" delta in
      if is_text type "text_delta"
      then some (
          chunk content_delta
            (some (record no_delta { text = some (string_of js (lookup "text" delta)) })) none)
      else if is_text type "input_json_delta"
      then some (
          chunk tool_use_delta
            (some
              (record no_delta { input_json = some (string_of js (lookup "partial_json" delta)) }))
            none)
      else if is_text type "thinking_delta"
      then some (
          chunk content_delta
            (some (record no_delta { text = some (string_of js (lookup "thinking" delta)) })) none)
      else none

  abbrev pub block_start : Map Json → Option CanonicalStreamChunk
  block_start block =
      if is_text (lookup "type" block) "tool_use"
      then some (
          chunk tool_use_delta
            (some (record no_delta {
              tool_use_id = some (string_of js (lookup "id" block));
              tool_name = some (string_of js (lookup "name" block));
            }))
            none)
      else none

  unfoldable pub chunk_to_canonical : Map Json → Option CanonicalStreamChunk
  chunk_to_canonical c =
      let type = lookup "type" c in
      if is_text type "content_block_delta"
      then block_delta (fields_of (lookup "delta" c))
      else if is_text type "content_block_start"
      then block_start (fields_of (lookup "content_block" c))
      else if is_text type "message_delta"
      then (do
        counts ← as_object (or_default (lookup "usage" c) empty_object)
        u ← read_usage counts
        some (chunk usage none (some u)))
      else if is_text type "message_stop"
      then some (chunk done none none)
      else none

abbrev pub text_chunk : String → Map Json
text_chunk t = entries (
    pair "type" (str "content_block_delta")
      (pair "delta" (object (pair "type" (str "text_delta") (pair "text" (str t) end))) end))

abbrev pub input_chunk : String → Map Json
input_chunk t = entries (
    pair "type" (str "content_block_delta") (
      pair "delta" (object (pair "type" (str "input_json_delta") (pair "partial_json" (str t) end)))
        end))

abbrev pub start_chunk : String → String → Map Json
start_chunk id name = entries (
    pair "type" (str "content_block_start") (
      pair "content_block"
        (object (pair "type" (str "tool_use") (pair "id" (str id) (pair "name" (str name) end))))
        end))

abbrev pub write_tool_delta : Option String → Delta → Map Json
write_tool_delta (some name) d = start_chunk (get_or d.tool_use_id "") name
write_tool_delta none d = input_chunk (get_or d.input_json "")

abbrev pub write_by : ChunkType → Delta → Option (Map Json)
write_by done d = some (entries (pair "type" (str "message_stop") end))
write_by content_delta d = some (text_chunk (get_or d.text ""))
write_by tool_use_delta d = some (write_tool_delta (present d.tool_name) d)
write_by usage d = none
write_by error d = none

unfoldable pub chunk_from_canonical : CanonicalStreamChunk → Option (Map Json)
chunk_from_canonical c = write_by c.type (delta_of c)

-- The chunk that a client of the Anthropic format sees.
abbrev pub back_tool_delta : Option String → Delta → Delta
back_tool_delta (some name) d = record no_delta {
  tool_use_id = some (get_or d.tool_use_id "");
  tool_name = some name;
}
back_tool_delta none d = record no_delta { input_json = some (get_or d.input_json "") }

back_tool_delta-lem :
    (js : Js) (name : Option String) (d : Delta)
    → chunk_to_canonical js (write_tool_delta name d)
      ≡ some (chunk tool_use_delta (some (back_tool_delta name d)) none)
unfolding chunk_to_canonical lookup
back_tool_delta-lem js (some name) d = refl
back_tool_delta-lem js none d = refl

abbrev pub back_chunk : ChunkType → Delta → Option CanonicalStreamChunk
back_chunk done d = some (chunk done none none)
back_chunk content_delta d =
    some (chunk content_delta (some (record no_delta { text = some (get_or d.text "") })) none)
back_chunk tool_use_delta d =
    some (chunk tool_use_delta (some (back_tool_delta (present d.tool_name) d)) none)
back_chunk usage d = none
back_chunk error d = none

back_chunk-lem :
    (js : Js) (type : ChunkType) (d : Delta)
    → (do m ← write_by type d; chunk_to_canonical js m) ≡ back_chunk type d
unfolding chunk_to_canonical lookup
back_chunk-lem js done d = refl
back_chunk-lem js content_delta d = refl
back_chunk-lem js tool_use_delta d = back_tool_delta-lem js (present d.tool_name) d
back_chunk-lem js usage d = refl
back_chunk-lem js error d = refl

-- A chunk that is written in the Anthropic format and read again: the end of the stream and the text
-- of a content chunk come back; of a tool chunk with a name, the name and the id, and of one
-- without, the piece of the input. Chunks of usage and of errors are not written.
pub chunk_to_canonical-chunk_from_canonical :
    (js : Js) (c : CanonicalStreamChunk)
    → (do m ← chunk_from_canonical c; chunk_to_canonical js m) ≡ back_chunk c.type (delta_of c)
unfolding chunk_from_canonical
chunk_to_canonical-chunk_from_canonical js c = back_chunk-lem js c.type (delta_of c)
