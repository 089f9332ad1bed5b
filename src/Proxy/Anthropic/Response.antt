-- ===== src/Proxy/Anthropic/Response.antt =====
-- `responseToCanonical` and `responseFromCanonical` of src/proxy/transforms/anthropic.ts.
use prism_pipe.Prelude.{
  ℕ, ◌+◌, Option, none, some, String, [], ◌∷◌, str_eq, Map, lookup, map, if◌then◌else◌,
}
use prism_pipe.Core.Canonical.{
  ContentBlock, text, image, tool_use, tool_result, thinking, StopReason, content_filter, unknown,
  stop_sequence, UsageInfo, CanonicalResponse,
}
use prism_pipe.Proxy.Json.{
  Json, num, str, array, object, nil, end, pair, array_of, Js, string_of, or_default, as_object,
  as_array, as_count, ◌>>=◌, traverse,
}
use prism_pipe.Proxy.Fields.{empty_object, is_text}
use prism_pipe.Proxy.Raw.{raw_block}

-- `n ?? 0`
abbrev pub read_count : Option Json → Option ℕ
read_count v = as_count (or_default v (num 0))

abbrev pub read_usage : Map Json → Option UsageInfo
read_usage m = do
  i ← read_count (lookup "input_tokens" m)
  o ← read_count (lookup "output_tokens" m)
  some (record { input_tokens = i; output_tokens = o; total_tokens = i + o })

-- `stopMap[stopReason] ?? 'unknown'`
abbrev pub stop_reason_of : String → StopReason
stop_reason_of s =
    if str_eq s "end_turn"
    then StopReason.end
    else if str_eq s "max_tokens"
    then StopReason.max_tokens
    else if str_eq s "tool_use"
    then StopReason.tool_use
    else if str_eq s "stop_sequence"
    then stop_sequence
    else unknown

-- `stopMap[res.stopReason] ?? 'end_turn'`
abbrev pub stop_text : StopReason → String
stop_text StopReason.end = "end_turn"
stop_text StopReason.max_tokens = "max_tokens"
stop_text StopReason.tool_use = "tool_use"
stop_text stop_sequence = "stop_sequence"
stop_text content_filter = "end_turn"
stop_text unknown = "end_turn"

module _ (js : Js) where
  unfoldable pub response_block_of : Json → Map Json → ContentBlock Json
  response_block_of raw m =
      let type = lookup "type" m in
      if is_text type "text"
      then text (string_of js (lookup "text" m))
      else if is_text type "tool_use"
      then tool_use (string_of js (lookup "id" m)) (string_of js (lookup "name" m))
          (or_default (lookup "input" m) empty_object)
      else if is_text type "thinking"
      then thinking (string_of js (lookup "thinking" m))
      else text (js.stringify raw)

  unfoldable pub read_response_block : Json → Option (ContentBlock Json)
  unfolding response_block_of
  read_response_block raw = do m ← as_object raw; some (response_block_of raw m)

  unfoldable pub response_to_canonical : Map Json → Option (CanonicalResponse Json)
  unfolding read_response_block
  response_to_canonical r = do
    raws ← as_array (or_default (lookup "content" r) (array nil))
    content ← traverse read_response_block raws
    counts ← as_object (or_default (lookup "usage" r) empty_object)
    usage ← read_usage counts
    some (record {
      id = string_of js (some (or_default (lookup "id" r) (str "")));
      model = string_of js (some (or_default (lookup "model" r) (str "")));
      content = content;
      stop_reason =
          stop_reason_of
            (string_of js (some (or_default (lookup "stop_reason" r) (str "end_turn"))));
      usage = usage;
      provider_extensions = none;
    })

  unfoldable pub write_response_block : ContentBlock Json → Json
  unfolding raw_block
  write_response_block (text t) = object (pair "type" (str "text") (pair "text" (str t) end))
  write_response_block (tool_use id name input) = object (
      pair "type" (str "tool_use")
        (pair "id" (str id) (pair "name" (str name) (pair "input" input end))))
  write_response_block (thinking t) =
      object (pair "type" (str "thinking") (pair "thinking" (str t) end))
  write_response_block (image s) =
      object (pair "type" (str "text") (pair "text" (str (js.stringify (raw_block (image s)))) end))
  write_response_block (tool_result id content e) = object (
      pair "type" (str "text")
        (pair "text" (str (js.stringify (raw_block (tool_result id content e)))) end))

  unfoldable pub response_from_canonical : CanonicalResponse Json → Map Json
  unfolding write_response_block
  response_from_canonical res =
      ("id", str res.id)
      ∷ ("type", str "message")
      ∷ ("role", str "assistant")
      ∷ ("model", str res.model)
      ∷ ("content", array (array_of (map write_response_block res.content)))
      ∷ ("stop_reason", str (stop_text res.stop_reason))
      ∷ (
        "usage",
        object (
            pair "input_tokens" (num res.usage.input_tokens)
              (pair "output_tokens" (num res.usage.output_tokens) end)),
      )
      ∷ []
