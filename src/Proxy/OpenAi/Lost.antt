-- ===== src/Proxy/OpenAi/Lost.antt =====
-- Tool calls that src/proxy/transforms/openai.ts loses.
use prism_pipe.Prelude.{◌≡◌, refl, ap, false, Option, some, String, List, [], ◌∷◌, ◌++◌, lookup}
use prism_pipe.Core.Canonical.{ContentBlock, CanonicalMessage}
use prism_pipe.Proxy.Json.{
  Json, null, str, array, object, end, pair, array_of, Js, ◌>>=◌, traverse, items-array_of,
}
use prism_pipe.Proxy.OpenAi.Reading.{
  is_assistant, merge, read_content, read_call, merge_calls, read_other, read_fields, read_message,
}

abbrev pub only_calls : List Json → Json
only_calls calls = object (
    pair "role" (str "assistant")
      (pair "content" null (pair "tool_calls" (array (array_of calls)) end)))

merge_behind :
    (bs : List (ContentBlock Json)) (ms : List (CanonicalMessage Json)) (m : CanonicalMessage Json)
    → is_assistant m.role ≡ false
    → merge bs (ms ++ (m ∷ [])) ≡ ms ++ (m ∷ [])
unfolding merge
merge_behind bs [] m e = rw e refl
merge_behind bs (a ∷ []) m e = rw e refl
merge_behind bs (a ∷ b ∷ ms) m e = ap (λ rest. a ∷ rest) (merge_behind bs (b ∷ ms) m e)

-- An assistant's message with tool calls and a content that is `null`, which is how the OpenAI format
-- has tool calls without a text, leaves nothing behind when the message before it is not the
-- assistant's: the tool calls are lost.
pub read_message-only_calls :
    (js : Js) (calls : List Json) (bs : List (ContentBlock Json))
    (ms : List (CanonicalMessage Json)) (m : CanonicalMessage Json) (prompt : Option String)
    → is_assistant m.role ≡ false
    → traverse (read_call js) calls ≡ some bs
    → read_message js (only_calls calls) (record { messages = ms ++ (m ∷ []); prompt = prompt })
      ≡ some (record { messages = ms ++ (m ∷ []); prompt = prompt })
unfolding read_fields read_other read_content merge_calls lookup
read_message-only_calls js calls bs ms m prompt e h =
    rw (items-array_of calls, h, ◌>>=◌, merge_behind bs ms m e) refl
