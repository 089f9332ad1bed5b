-- ===== src/Proxy/Anthropic/Request.antt =====
-- `toCanonical` and `fromCanonical` of src/proxy/transforms/anthropic.ts, for a request that is an
-- object, by its entries.
use prism_pipe.Prelude.{
  Bool, true, false, Option, none, some, String, List, [], ◌∷◌, ◌++◌, Map, lookup, map,
  if◌then◌else◌, get_or,
}
use prism_pipe.Core.Canonical.{
  ImageSource, base64, url, ContentBlock, text, image, tool_use, tool_result, thinking,
  ResultContent, Content, plain, blocks, Role, user, assistant, system, tool, CanonicalMessage,
  CanonicalRequest, ToolDefinition,
}
use prism_pipe.Proxy.Json.{
  Json, null, bool, num, number, str, array, object, nil, end, pair, items, array_of, Js, string_of,
  or_default, truthy, non_null, as_object, as_array, as_text, as_number, ◌>>=◌, traverse, optional,
}
use prism_pipe.Proxy.Json.Extras.{opt, unknown_entries, spread}
use prism_pipe.Proxy.Fields.{
  empty_object, is_true, is_text, read_texts, read_system, extras_of, is_set, write_texts,
  write_stream, write_system, entries_of,
}
use prism_pipe.Proxy.Raw.{raw_content, role_text, role_of}

abbrev pub source_of : Map Json → Option ImageSource
source_of m =
    if is_text (lookup "type" m) "base64"
    then (do
      media_type ← as_text (lookup "media_type" m)
      bytes ← as_text (lookup "data" m)
      some (base64 media_type bytes))
    else (do u ← as_text (lookup "url" m); some (url u))

abbrev pub known_keys : List String
known_keys =
    "model" ∷ "messages" ∷ "system" ∷ "temperature" ∷ "max_tokens" ∷ "top_p" ∷ "stop_sequences"
    ∷ "stream" ∷ "tools" ∷ "tool_choice" ∷ "metadata" ∷ []

module _ (js : Js) where
  -- The `switch` on a block's type; `raw` is the block itself.
  unfoldable pub block_of : Json → Map Json → Option (ContentBlock Json)
  block_of raw m =
      let type = lookup "type" m in
      if is_text type "text"
      then some (text (string_of js (lookup "text" m)))
      else if is_text type "image"
      then (do
        s ← lookup "source" m
        fields ← as_object s
        source ← source_of fields
        some (image source))
      else if is_text type "tool_use"
      then some (
          tool_use (string_of js (lookup "id" m)) (string_of js (lookup "name" m))
            (or_default (lookup "input" m) empty_object))
      else if is_text type "tool_result"
      then some (
          tool_result (string_of js (lookup "tool_use_id" m))
            (ResultContent.plain (string_of js (some (or_default (lookup "content" m) (str "")))))
            (some (is_true (lookup "is_error" m))))
      else if is_text type "thinking"
      then some (thinking (string_of js (lookup "thinking" m)))
      else some (text (js.stringify raw))

  unfoldable pub read_block : Json → Option (ContentBlock Json)
  unfolding block_of
  read_block raw = do m ← as_object raw; block_of raw m

  -- The body of the loop over the messages, by `msg.content`: a message with other content is left
  -- out.
  unfoldable pub message_of : Option Json → Option Role → Option (List (CanonicalMessage Json))
  unfolding read_block
  message_of (some (str s)) role = do r ← role; some (record { role = r; content = plain s } ∷ [])
  message_of (some (array vs)) role = do
    bs ← traverse read_block (items vs)
    r ← role
    some (record { role = r; content = blocks bs } ∷ [])
  message_of none role = some []
  message_of (some null) role = some []
  message_of (some (bool b)) role = some []
  message_of (some (num n)) role = some []
  message_of (some (number t)) role = some []
  message_of (some (object ps)) role = some []

  unfoldable pub read_message : Json → Option (List (CanonicalMessage Json))
  unfolding message_of
  read_message raw = do
    m ← as_object raw
    message_of (lookup "content" m) (do role ← as_text (lookup "role" m); role_of role)

  unfoldable pub read_messages : List Json → Option (List (CanonicalMessage Json))
  unfolding read_message
  read_messages [] = some []
  read_messages (raw ∷ raws) = do
    ms ← read_message raw
    rest ← read_messages raws
    some (ms ++ rest)

  unfoldable pub read_tool : Json → Option (ToolDefinition Json)
  read_tool raw = do
    m ← as_object raw
    some (record {
      name = string_of js (lookup "name" m);
      description = string_of js (some (or_default (lookup "description" m) (str "")));
      input_schema = or_default (lookup "input_schema" m) empty_object;
    })

  abbrev pub read_tools : Json → Option (List (ToolDefinition Json))
  read_tools v = do raws ← as_array v; traverse read_tool raws

  unfoldable pub to_canonical : Map Json → Option (CanonicalRequest Json)
  unfolding read_messages read_tool unknown_entries
  to_canonical r = do
    raws ← as_array (or_default (lookup "messages" r) (array nil))
    messages ← read_messages raws
    temperature ← optional as_number (non_null (lookup "temperature" r))
    max_tokens ← optional as_number (non_null (lookup "max_tokens" r))
    top_p ← optional as_number (non_null (lookup "top_p" r))
    stop_sequences ← optional read_texts (truthy (lookup "stop_sequences" r))
    tools ← optional read_tools (truthy (lookup "tools" r))
    some (record {
      model = string_of js (some (or_default (lookup "model" r) (str "")));
      messages = messages;
      system_prompt = read_system js (lookup "system" r);
      tools = tools;
      temperature = temperature;
      max_tokens = max_tokens;
      top_p = top_p;
      stop_sequences = stop_sequences;
      stream = is_set (truthy (lookup "stream" r));
      provider_extensions = none;
      extras = extras_of (unknown_entries known_keys r);
    })

-- `fromCanonical`
abbrev pub write_source : ImageSource → Json
write_source (base64 media_type bytes) =
    object (
      pair "type" (str "base64") (pair "media_type" (str media_type) (pair "data" (str bytes) end)))
write_source (url u) = object (pair "type" (str "url") (pair "url" (str u) end))

unfoldable pub write_block : ContentBlock Json → Json
unfolding raw_content
write_block (text t) = object (pair "type" (str "text") (pair "text" (str t) end))
write_block (image s) = object (pair "type" (str "image") (pair "source" (write_source s) end))
write_block (tool_use id name input) = object (
    pair "type" (str "tool_use")
      (pair "id" (str id) (pair "name" (str name) (pair "input" input end))))
write_block (tool_result id content e) = object (
    pair "type" (str "tool_result") (
      pair "tool_use_id" (str id)
        (pair "content" (raw_content content) (pair "is_error" (bool (get_or e false)) end))))
write_block (thinking t) = object (pair "type" (str "thinking") (pair "thinking" (str t) end))

unfoldable pub write_content : Content Json → Json
unfolding write_block
write_content (plain t) = str t
write_content (blocks bs) = array (array_of (map write_block bs))

-- `msg.role === 'tool' ? 'user' : msg.role`
abbrev pub sent_role : Role → Role
sent_role user = user
sent_role assistant = assistant
sent_role system = system
sent_role tool = user

abbrev pub is_system : Role → Bool
is_system system = true
is_system user = false
is_system assistant = false
is_system tool = false

unfoldable pub write_message : CanonicalMessage Json → Json
unfolding write_content
write_message m = object (
    pair "role" (str (role_text (sent_role m.role))) (pair "content" (write_content m.content) end))

-- System messages are left out.
unfoldable pub write_messages : List (CanonicalMessage Json) → List Json
unfolding write_message
write_messages [] = []
write_messages (m ∷ ms) =
    let rest = write_messages ms in if is_system m.role then rest else write_message m ∷ rest

abbrev pub write_tool : ToolDefinition Json → Json
write_tool t = object (
    pair "name" (str t.name)
      (pair "description" (str t.description) (pair "input_schema" t.input_schema end)))

abbrev pub write_tools : Option (List (ToolDefinition Json)) → Option Json
write_tools none = none
write_tools (some ts) = some (array (array_of (map write_tool ts)))

-- The fields in the order in which the code sets them.
unfoldable pub own_fields : CanonicalRequest Json → Map Json
unfolding write_messages
own_fields req =
    ("model", str req.model)
    ∷ ("messages", array (array_of (write_messages req.messages)))
    ∷ opt "system" (write_system req.system_prompt) (
        ("max_tokens", get_or req.max_tokens (num 4096))
        ∷ opt "temperature" req.temperature (
            opt "top_p" req.top_p (
              opt "stop_sequences" (write_texts req.stop_sequences)
                (opt "stream" (write_stream req.stream) (opt "tools" (write_tools req.tools) [])))))

unfoldable pub from_canonical : CanonicalRequest Json → Map Json
unfolding own_fields spread
from_canonical req = spread (entries_of req.extras) (own_fields req)
