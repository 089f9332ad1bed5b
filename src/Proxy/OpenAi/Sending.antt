-- ===== src/Proxy/OpenAi/Sending.antt =====
-- `fromCanonical` of src/proxy/transforms/openai.ts.
use prism_pipe.Prelude.{Option, none, some, String, List, [], ◌∷◌, ◌++◌, map, Map}
use prism_pipe.Core.Canonical.{
  ContentBlock, text, image, tool_use, tool_result, thinking, ResultContent, Content, plain, blocks,
  Role, user, assistant, system, tool, CanonicalMessage, CanonicalRequest, ToolDefinition,
}
use prism_pipe.Compose.Chain.{present}
use prism_pipe.Proxy.Json.{Json, str, array, object, end, pair, array_of, object_of, Js}
use prism_pipe.Proxy.Json.Extras.{opt, spread}
use prism_pipe.Proxy.Fields.{write_texts, write_stream, entries_of}
use prism_pipe.Proxy.Raw.{role_text, raw_content}
use prism_pipe.Proxy.OpenAi.DataUrl.{url_of}

-- An element of `parts`, and what is kept of a tool call in `toolCalls`.
pub data Part : Type 0 where
  text_part : String → Part
  url_part : String → Part

pub record Call : Type 0 where
  pub id : String
  pub name : String
  pub input : Json

-- The loop over the blocks of a message.
unfoldable pub parts_of : List (ContentBlock Json) → List Part
parts_of [] = []
parts_of (text t ∷ bs) = text_part t ∷ parts_of bs
parts_of (image s ∷ bs) = url_part (url_of s) ∷ parts_of bs
parts_of (tool_use id name input ∷ bs) = parts_of bs
parts_of (tool_result id content e ∷ bs) = parts_of bs
parts_of (thinking t ∷ bs) = parts_of bs

unfoldable pub calls_of : List (ContentBlock Json) → List Call
calls_of [] = []
calls_of (tool_use id name input ∷ bs) =
    record { id = id; name = name; input = input } ∷ calls_of bs
calls_of (text t ∷ bs) = calls_of bs
calls_of (image s ∷ bs) = calls_of bs
calls_of (tool_result id content e ∷ bs) = calls_of bs
calls_of (thinking t ∷ bs) = calls_of bs

abbrev pub write_part : Part → Json
write_part (text_part t) = object (pair "type" (str "text") (pair "text" (str t) end))
write_part (url_part u) =
    object (pair "type" (str "image_url") (pair "image_url" (object (pair "url" (str u) end)) end))

abbrev pub write_parts : List Part → Option Json
write_parts [] = none
write_parts (text_part t ∷ []) = some (str t)
write_parts (url_part u ∷ []) = some (array (array_of (write_part (url_part u) ∷ [])))
write_parts (p ∷ q ∷ ps) = some (array (array_of (map write_part (p ∷ q ∷ ps))))

-- `if (!entry.content && !entry.tool_calls) entry.content = ''`
abbrev pub content_or : Option Json → Option Json → Option Json
content_or (some c) calls = some c
content_or none none = some (str "")
content_or none (some calls) = none

abbrev pub write_tool : ToolDefinition Json → Json
write_tool t = object (
    pair "type" (str "function") (
      pair "function"
        (object (
          pair "name" (str t.name)
            (pair "description" (str t.description) (pair "parameters" t.input_schema end))))
        end))

abbrev pub write_tools : Option (List (ToolDefinition Json)) → Option Json
write_tools none = none
write_tools (some ts) = some (array (array_of (map write_tool ts)))

abbrev pub role_message : Role → String → Json
role_message r t = object (pair "role" (str (role_text r)) (pair "content" (str t) end))

-- `typeof msg.content === 'string' ? msg.content : ''`
abbrev pub system_text : Content Json → String
system_text (plain t) = t
system_text (blocks bs) = ""

abbrev pub write_prompt : Option String → List Json
write_prompt none = []
write_prompt (some t) = role_message system t ∷ []

module _ (js : Js) where
  abbrev pub write_call : Call → Json
  write_call c = object (
      pair "id" (str c.id) (
        pair "type" (str "function") (
          pair "function"
            (object (pair "name" (str c.name) (pair "arguments" (str (js.stringify c.input)) end)))
            end)))

  abbrev pub write_calls : List Call → Option Json
  write_calls [] = none
  write_calls (c ∷ cs) = some (array (array_of (map write_call (c ∷ cs))))

  abbrev pub entry : Role → List Part → List Call → Map Json
  entry r ps cs =
      ("role", str (role_text r))
      ∷ opt "content" (content_or (write_parts ps) (write_calls cs))
          (opt "tool_calls" (write_calls cs) [])

  unfoldable pub write_entry : Role → List Part → List Call → Json
  write_entry r ps cs = object (object_of (entry r ps cs))

  -- `typeof block.content === 'string' ? block.content : JSON.stringify(block.content)`
  unfoldable pub result_text : ResultContent Json → String
  unfolding raw_content
  result_text (ResultContent.plain t) = t
  result_text ResultContent.nil = js.stringify (raw_content ResultContent.nil)
  result_text (ResultContent.cons b bs) = js.stringify (raw_content (ResultContent.cons b bs))

  abbrev pub write_result : String → String → Json
  write_result id t =
      object (pair "role" (str "tool") (pair "tool_call_id" (str id) (pair "content" (str t) end)))

  unfoldable pub write_results : List (ContentBlock Json) → List Json
  unfolding result_text
  write_results [] = []
  write_results (tool_result id content e ∷ bs) =
      write_result id (result_text content) ∷ write_results bs
  write_results (text t ∷ bs) = write_results bs
  write_results (image s ∷ bs) = write_results bs
  write_results (tool_use id name input ∷ bs) = write_results bs
  write_results (thinking t ∷ bs) = write_results bs

  -- The body of the loop over the messages.
  unfoldable pub write_by : Role → Content Json → List Json
  unfolding write_entry write_results parts_of calls_of
  write_by system c = role_message system (system_text c) ∷ []
  write_by tool (blocks bs) = write_results bs
  write_by tool (plain t) = role_message tool t ∷ []
  write_by user (plain t) = role_message user t ∷ []
  write_by assistant (plain t) = role_message assistant t ∷ []
  write_by user (blocks bs) = write_entry user (parts_of bs) (calls_of bs) ∷ []
  write_by assistant (blocks bs) = write_entry assistant (parts_of bs) (calls_of bs) ∷ []

  unfoldable pub write_messages : List (CanonicalMessage Json) → List Json
  unfolding write_by
  write_messages [] = []
  write_messages (m ∷ ms) = write_by m.role m.content ++ write_messages ms

  unfoldable pub own_fields : CanonicalRequest Json → Map Json
  unfolding write_messages
  own_fields req =
      ("model", str req.model)
      ∷ (
        "messages",
        array (array_of (write_prompt (present req.system_prompt) ++ write_messages req.messages)),
      )
      ∷ opt "temperature" req.temperature (
          opt "max_tokens" req.max_tokens (
            opt "top_p" req.top_p (
              opt "stop" (write_texts req.stop_sequences)
                (opt "stream" (write_stream req.stream) (opt "tools" (write_tools req.tools) [])))))

  unfoldable pub from_canonical : CanonicalRequest Json → Map Json
  unfolding own_fields spread
  from_canonical req = spread (entries_of req.extras) (own_fields req)
