-- ===== src/Proxy/OpenAi/Response.antt =====
-- `responseToCanonical` and `responseFromCanonical` of src/proxy/transforms/openai.ts.
use prism_pipe.Prelude.{
  ℕ, Option, none, some, String, str_append, List, [], ◌∷◌, ◌++◌, str_eq, Map, lookup,
  if◌then◌else◌,
}
use prism_pipe.Core.Canonical.{
  ContentBlock, text, image, tool_use, tool_result, thinking, StopReason, content_filter, unknown,
  stop_sequence, UsageInfo, CanonicalResponse,
}
use prism_pipe.Proxy.Json.{
  Json, num, str, array, object, nil, items, end, pair, array_of, object_of, Js, string_of,
  or_default, truthy, as_object, as_array, as_count, ◌>>=◌, traverse,
}
use prism_pipe.Proxy.Json.Extras.{opt}
use prism_pipe.Proxy.Fields.{empty_object, fields_of}
use prism_pipe.Proxy.OpenAi.Sending.{calls_of, write_calls}

-- `n ?? 0`
abbrev pub read_count : Option Json → Option ℕ
read_count v = as_count (or_default v (num 0))

abbrev pub read_usage : Map Json → Option UsageInfo
read_usage m = do
  i ← read_count (lookup "prompt_tokens" m)
  o ← read_count (lookup "completion_tokens" m)
  t ← read_count (lookup "total_tokens" m)
  some (record { input_tokens = i; output_tokens = o; total_tokens = t })

abbrev pub write_usage : UsageInfo → Json
write_usage u = object (
    pair "prompt_tokens" (num u.input_tokens) (
      pair "completion_tokens" (num u.output_tokens)
        (pair "total_tokens" (num u.total_tokens) end)))

-- `stopReasonMap[finishReason] ?? 'unknown'`
abbrev pub stop_reason_of : String → StopReason
stop_reason_of s =
    if str_eq s "stop"
    then StopReason.end
    else if str_eq s "length"
    then StopReason.max_tokens
    else if str_eq s "tool_calls"
    then StopReason.tool_use
    else if str_eq s "content_filter"
    then content_filter
    else unknown

-- `stopReasonMap[res.stopReason] ?? 'stop'`
abbrev pub finish_text : StopReason → String
finish_text StopReason.end = "stop"
finish_text StopReason.max_tokens = "length"
finish_text StopReason.tool_use = "tool_calls"
finish_text content_filter = "content_filter"
finish_text stop_sequence = "stop"
finish_text unknown = "stop"

-- `xs[0]`
abbrev pub first_of : List Json → Option Json
first_of [] = none
first_of (v ∷ vs) = some v

-- The texts of the blocks of type `text`.
unfoldable pub texts_of : List (ContentBlock Json) → List String
texts_of [] = []
texts_of (text t ∷ bs) = t ∷ texts_of bs
texts_of (image s ∷ bs) = texts_of bs
texts_of (tool_use id name input ∷ bs) = texts_of bs
texts_of (tool_result id content e ∷ bs) = texts_of bs
texts_of (thinking t ∷ bs) = texts_of bs

-- `ts.join('')`
abbrev pub join : List String → String
join [] = ""
join (t ∷ ts) = str_append t (join ts)

abbrev pub write_texts : List String → Option Json
write_texts [] = none
write_texts (t ∷ ts) = some (str (join (t ∷ ts)))

module _ (js : Js) where
  abbrev pub read_text : Option Json → List (ContentBlock Json)
  read_text none = []
  read_text (some v) = text (string_of js (some v)) ∷ []

  unfoldable pub read_tool_call : Json → Option (ContentBlock Json)
  read_tool_call raw = do
    m ← as_object raw
    f ← lookup "function" m
    fn ← as_object f
    input ← js.parse (string_of js (some (or_default (lookup "arguments" fn) (str "{}"))))
    some (tool_use (string_of js (lookup "id" m)) (string_of js (lookup "name" fn)) input)

  -- Only an array holds tool calls.
  unfoldable pub read_tool_calls : Option Json → Option (List (ContentBlock Json))
  unfolding read_tool_call
  read_tool_calls (some (array vs)) = traverse read_tool_call (items vs)
  read_tool_calls _ = some []

  unfoldable pub response_to_canonical : Map Json → Option (CanonicalResponse Json)
  unfolding read_tool_calls
  response_to_canonical r = do
    choices ← as_array (or_default (lookup "choices" r) (array nil))
    let choice = fields_of (first_of choices)
    let msg = fields_of (lookup "message" choice)
    calls ← read_tool_calls (lookup "tool_calls" msg)
    counts ← as_object (or_default (lookup "usage" r) empty_object)
    usage ← read_usage counts
    some (record {
      id = string_of js (some (or_default (lookup "id" r) (str "")));
      model = string_of js (some (or_default (lookup "model" r) (str "")));
      content = read_text (truthy (lookup "content" msg)) ++ calls;
      stop_reason =
          stop_reason_of
            (string_of js (some (or_default (lookup "finish_reason" choice) (str "stop"))));
      usage = usage;
      provider_extensions = none;
    })

  abbrev pub message_fields : List (ContentBlock Json) → Map Json
  message_fields bs =
      ("role", str "assistant")
      ∷ opt "content" (write_texts (texts_of bs))
          (opt "tool_calls" (write_calls js (calls_of bs)) [])

  unfoldable pub response_from_canonical : CanonicalResponse Json → Map Json
  unfolding texts_of calls_of
  response_from_canonical res =
      ("id", str res.id)
      ∷ ("object", str "chat.completion")
      ∷ ("model", str res.model)
      ∷ (
        "choices",
        array (
            array_of (
              object (
                pair "index" (num 0) (
                  pair "message" (object (object_of (message_fields res.content)))
                    (pair "finish_reason" (str (finish_text res.stop_reason)) end)))
              ∷ [])),
      )
      ∷ ("usage", write_usage res.usage)
      ∷ []
