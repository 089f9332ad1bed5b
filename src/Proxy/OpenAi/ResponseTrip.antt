-- ===== src/Proxy/OpenAi/ResponseTrip.antt =====
-- What of a canonical response comes back through src/proxy/transforms/openai.ts.
use prism_pipe.Prelude.{
  Map, ◌≡◌, refl, Option, none, some, String, List, [], ◌∷◌, ◌++◌, lookup, map, All, arith,
}
use prism_pipe.Core.Canonical.{
  ContentBlock, text, StopReason, content_filter, unknown, stop_sequence, CanonicalResponse,
}
use prism_pipe.Compose.Chain.{present}
use prism_pipe.Proxy.Json.{
  Json, array, array_of, entries, object_of, Js, truthy, ◌>>=◌, items-array_of, entries-object_of,
  traverse-map,
}
use prism_pipe.Proxy.Json.Extras.{opt, lookup-opt}
use prism_pipe.Proxy.Fields.Trip.{first-none}
use prism_pipe.Proxy.OpenAi.Sending.{Call, calls_of, write_call, write_calls}
use prism_pipe.Proxy.OpenAi.Messages.{call_block, Parses}
use prism_pipe.Proxy.OpenAi.Response.{
  stop_reason_of, finish_text, texts_of, join, write_texts, read_text, read_tool_call,
  read_tool_calls, response_to_canonical, response_from_canonical,
}

abbrev pub back_stop : StopReason → StopReason
back_stop StopReason.end = StopReason.end
back_stop StopReason.max_tokens = StopReason.max_tokens
back_stop StopReason.tool_use = StopReason.tool_use
back_stop content_filter = content_filter
back_stop stop_sequence = StopReason.end
back_stop unknown = StopReason.end

stop_reason_of-finish_text : (r : StopReason) → stop_reason_of (finish_text r) ≡ back_stop r
stop_reason_of-finish_text StopReason.end = refl
stop_reason_of-finish_text StopReason.max_tokens = refl
stop_reason_of-finish_text StopReason.tool_use = refl
stop_reason_of-finish_text content_filter = refl
stop_reason_of-finish_text stop_sequence = refl
stop_reason_of-finish_text unknown = refl

-- One block with the texts joined, unless they are empty.
abbrev pub joined : Option String → List (ContentBlock Json)
joined none = []
joined (some t) = text t ∷ []

module _ (js : Js) where
  abbrev pub back_response : CanonicalResponse Json → CanonicalResponse Json
  back_response res = record res {
    content =
        joined (present (some (join (texts_of res.content))))
        ++ map call_block (calls_of res.content);
    stop_reason = back_stop res.stop_reason;
    provider_extensions = none;
  }

  read_text-write_texts :
      (ts : List String)
      → read_text js (truthy (write_texts ts)) ≡ joined (present (some (join ts)))
  read_text-write_texts [] = refl
  read_text-write_texts (t ∷ ts) = ground arith

  read_calls :
      (cs : List Call)
      → All (Parses js) cs
      → read_tool_calls js (some (array (array_of (map (write_call js) cs))))
        ≡ some (map call_block cs)
  unfolding read_tool_calls read_tool_call lookup
  read_calls cs p = rw (items-array_of (map (write_call js) cs)) (
      traverse-map (read_tool_call js) (write_call js) call_block (Parses js)
        (λ c h. rw (h, ◌>>=◌) refl) cs p)

  pub read_tool_calls-write_calls :
      (cs : List Call)
      → All (Parses js) cs
      → read_tool_calls js (write_calls js cs) ≡ some (map call_block cs)
  unfolding read_tool_calls
  read_tool_calls-write_calls [] p = refl
  read_tool_calls-write_calls (c ∷ cs) p = read_calls (c ∷ cs) p

  abbrev pub said : List (ContentBlock Json) → Map Json
  said bs =
      opt "content" (write_texts (texts_of bs)) (opt "tool_calls" (write_calls js (calls_of bs)) [])

  pub said_content :
      (bs : List (ContentBlock Json))
      → lookup "content" (entries (object_of (said bs))) ≡ write_texts (texts_of bs)
  unfolding lookup
  said_content bs = rw (entries-object_of (said bs)) (simp (lookup-opt, first-none))

  pub said_calls :
      (bs : List (ContentBlock Json))
      → lookup "tool_calls" (entries (object_of (said bs))) ≡ write_calls js (calls_of bs)
  unfolding lookup
  said_calls bs = rw (entries-object_of (said bs)) (simp (lookup-opt, first-none))

  -- Of a response, the id, the model, the counts of tokens and the stop reason come back from the
  -- OpenAI format, but that `stop_sequence` and `unknown` become `end`; of its content, the texts joined
  -- to one, unless that is empty, and behind it the tool calls in their order, where the JSON of each
  -- input is read as that input. Images, tool results and thinking are left out.
  pub response_to_canonical-response_from_canonical_open_ai :
      (res : CanonicalResponse Json)
      → All (Parses js) (calls_of res.content)
      → response_to_canonical js (response_from_canonical js res) ≡ some (back_response res)
  unfolding response_to_canonical response_from_canonical lookup
  response_to_canonical-response_from_canonical_open_ai res p =
      rw
        (
          said_content res.content,
          said_calls res.content,
          read_text-write_texts (texts_of res.content),
          read_tool_calls-write_calls (calls_of res.content) p,
          stop_reason_of-finish_text res.stop_reason,
        )
        refl
