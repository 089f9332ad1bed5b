-- ===== src/Proxy/OpenAi/Reading.antt =====
-- `toCanonical` of src/proxy/transforms/openai.ts, for a request that is an object, by its entries.
use prism_pipe.Prelude.{
  Bool, true, false, Option, none, some, String, str_append, List, [], ◌∷◌, ◌++◌, Map, lookup,
  if◌then◌else◌,
}
use prism_pipe.Core.Canonical.{
  ContentBlock, text, image, tool_use, tool_result, ResultContent, Content, plain, blocks, Role,
  user, assistant, system, tool, CanonicalMessage, CanonicalRequest, ToolDefinition,
}
use prism_pipe.Compose.Chain.{present}
use prism_pipe.Proxy.Json.{
  Json, null, bool, num, number, str, array, object, nil, items, Js, string_of, or_default, truthy,
  non_null, as_object, as_array, as_text, as_number, ◌>>=◌, traverse, optional,
}
use prism_pipe.Proxy.Json.Extras.{first, unknown_entries}
use prism_pipe.Proxy.Fields.{empty_object, is_text, read_texts, extras_of, is_set, fields_of}
use prism_pipe.Proxy.Raw.{role_of}
use prism_pipe.Proxy.OpenAi.DataUrl.{image_of}

-- The variables of the loop over the messages.
pub record Reading : Type 0 where
  pub messages : List (CanonicalMessage Json)
  pub prompt : Option String

abbrev pub known_keys : List String
known_keys =
    "model" ∷ "messages" ∷ "temperature" ∷ "max_tokens" ∷ "max_completion_tokens" ∷ "top_p" ∷ "stop"
    ∷ "stream" ∷ "tools" ∷ "tool_choice" ∷ []

abbrev pub with_newline : Option String → String
with_newline none = ""
with_newline (some t) = str_append t "\n"

-- `(systemPrompt ? systemPrompt + '\n' : '') + s`
abbrev pub join_prompt : Option String → String → String
join_prompt prompt s = str_append (with_newline (present prompt)) s

abbrev pub is_assistant : Role → Bool
is_assistant assistant = true
is_assistant user = false
is_assistant system = false
is_assistant tool = false

abbrev pub blocks_of : Content Json → List (ContentBlock Json)
blocks_of (plain t) = text t ∷ []
blocks_of (blocks bs) = bs

-- The tool calls join the last message if that is the assistant's; else they are gone.
unfoldable pub merge :
    List (ContentBlock Json) → List (CanonicalMessage Json) → List (CanonicalMessage Json)
merge calls [] = []
merge calls (m ∷ []) =
    (if is_assistant m.role
      then record m { content = blocks (blocks_of m.content ++ calls) }
      else m)
    ∷ []
merge calls (m ∷ n ∷ ms) = m ∷ merge calls (n ∷ ms)

module _ (js : Js) where
  unfoldable pub part_of : Json → Map Json → Option (ContentBlock Json)
  part_of raw m =
      let type = lookup "type" m in
      if is_text type "text"
      then some (text (string_of js (lookup "text" m)))
      else if is_text type "image_url"
      then (do
        u ← as_text (some (or_default (lookup "url" (fields_of (lookup "image_url" m))) (str "")))
        some (image (image_of u)))
      else some (text (js.stringify raw))

  unfoldable pub read_part : Json → Option (ContentBlock Json)
  unfolding part_of
  read_part raw = do m ← as_object raw; part_of raw m

  -- By `msg.content`: a message with other content is not pushed.
  unfoldable pub read_content :
      Option Json
      → Option Role
      → List (CanonicalMessage Json)
      → Option (List (CanonicalMessage Json))
  read_content (some (str s)) role ms = do
    r ← role
    some (ms ++ (record { role = r; content = plain s } ∷ []))
  read_content (some (array vs)) role ms = do
    bs ← traverse read_part (items vs)
    r ← role
    some (ms ++ (record { role = r; content = blocks bs } ∷ []))
  read_content none role ms = some ms
  read_content (some null) role ms = some ms
  read_content (some (bool b)) role ms = some ms
  read_content (some (num n)) role ms = some ms
  read_content (some (number t)) role ms = some ms
  read_content (some (object ps)) role ms = some ms

  unfoldable pub read_call : Json → Option (ContentBlock Json)
  read_call raw = do
    m ← as_object raw
    input ← js.parse (
        string_of js
          (some (or_default (lookup "arguments" (fields_of (lookup "function" m))) (str "{}"))))
    some (
        tool_use (string_of js (lookup "id" m))
          (string_of js (lookup "name" (fields_of (lookup "function" m)))) input)

  unfoldable pub merge_calls :
      Bool → Option Json → List (CanonicalMessage Json) → Option (List (CanonicalMessage Json))
  unfolding read_call merge
  merge_calls true (some (array vs)) ms = do
    calls ← traverse read_call (items vs)
    some (merge calls ms)
  merge_calls true _ ms = some ms
  merge_calls false _ ms = some ms

  abbrev pub tool_message : Map Json → CanonicalMessage Json
  tool_message m = record {
    role = tool;
    content = blocks (
        tool_result (string_of js (lookup "tool_call_id" m))
          (ResultContent.plain (string_of js (lookup "content" m))) none
        ∷ []);
  }

  -- The body of the loop for a message that is not the system's.
  unfoldable pub read_other :
      Map Json → List (CanonicalMessage Json) → Option (List (CanonicalMessage Json))
  unfolding read_content merge_calls
  read_other m ms = do
    let role = lookup "role" m
    pushed ← read_content (lookup "content" m) (do t ← as_text role; role_of t) ms
    merged ← merge_calls (is_text role "assistant") (lookup "tool_calls" m) pushed
    some (if is_text role "tool" then merged ++ (tool_message m ∷ []) else merged)

  unfoldable pub read_fields : Map Json → Reading → Option Reading
  unfolding read_other
  read_fields m st =
      if is_text (lookup "role" m) "system"
      then some
          (record st { prompt = some (join_prompt st.prompt (string_of js (lookup "content" m))) })
      else (do ms ← read_other m st.messages; some (record st { messages = ms }))

  abbrev pub read_message : Json → Reading → Option Reading
  read_message raw st = do m ← as_object raw; read_fields m st

  unfoldable pub read_messages : List Json → Reading → Option Reading
  unfolding read_fields
  read_messages [] st = some st
  read_messages (raw ∷ raws) st = do next ← read_message raw st; read_messages raws next

  -- `Array.isArray(r.stop) ? r.stop : [String(r.stop)]`
  abbrev pub read_stop : Json → Option (List String)
  read_stop (array vs) = read_texts (array vs)
  read_stop null = some (string_of js (some null) ∷ [])
  read_stop (bool b) = some (string_of js (some (bool b)) ∷ [])
  read_stop (num n) = some (string_of js (some (num n)) ∷ [])
  read_stop (number t) = some (string_of js (some (number t)) ∷ [])
  read_stop (str s) = some (s ∷ [])
  read_stop (object ps) = some (string_of js (some (object ps)) ∷ [])

  unfoldable pub read_tool : Json → Option (ToolDefinition Json)
  read_tool raw = do
    m ← as_object raw
    f ← lookup "function" m
    fn ← as_object f
    some (record {
      name = string_of js (lookup "name" fn);
      description = string_of js (some (or_default (lookup "description" fn) (str "")));
      input_schema = or_default (lookup "parameters" fn) empty_object;
    })

  abbrev pub read_tools : Json → Option (List (ToolDefinition Json))
  read_tools v = do raws ← as_array v; traverse read_tool raws

  unfoldable pub to_canonical : Map Json → Option (CanonicalRequest Json)
  unfolding read_messages read_tool unknown_entries
  to_canonical r = do
    raws ← as_array (or_default (lookup "messages" r) (array nil))
    st ← read_messages raws (record { messages = []; prompt = none })
    temperature ← optional as_number (non_null (lookup "temperature" r))
    max_tokens ← optional as_number (non_null (lookup "max_tokens" r))
    completion ← optional as_number (non_null (lookup "max_completion_tokens" r))
    top_p ← optional as_number (non_null (lookup "top_p" r))
    stop_sequences ← optional read_stop (truthy (lookup "stop" r))
    tools ← optional read_tools (truthy (lookup "tools" r))
    some (record {
      model = string_of js (some (or_default (lookup "model" r) (str "")));
      messages = st.messages;
      system_prompt = present st.prompt;
      tools = tools;
      temperature = temperature;
      max_tokens = first completion max_tokens;
      top_p = top_p;
      stop_sequences = stop_sequences;
      stream = is_set (truthy (lookup "stream" r));
      provider_extensions = none;
      extras = extras_of (unknown_entries known_keys r);
    })
