-- ===== src/Proxy/OpenAi/RequestTrip.antt =====
-- What of a canonical request comes back from `toCanonical` of src/proxy/transforms/openai.ts when it
-- is given what `fromCanonical` made of it.
use mathlib.Core.List.{append_assoc, append-nil}
use package.text.Mathlib.TextLemmas.{nil-append}
use prism_pipe.Prelude.{
  ◌≡◌, ◌≢◌, refl, sym, ◌∙◌, ap, Option, none, some, String, List, [], ◌∷◌, ◌++◌, lookup, map, All,
}
use prism_pipe.Core.Canonical.{CanonicalMessage, CanonicalRequest, ToolDefinition}
use prism_pipe.Compose.Chain.{present}
use prism_pipe.Proxy.Json.{
  Json, null, str, array, array_of, Js, truthy, optional, items-array_of, traverse-map,
}
use prism_pipe.Proxy.Json.Extras.{lookup-opt, Extra, Known, Known-opt, spread-Extra}
use prism_pipe.Proxy.Fields.{empty_object, extras_of, write_texts, write_stream, entries_of}
use prism_pipe.Proxy.Fields.Trip.{
  AllTools, Numeric, or_default-non_null, map-id, read_texts-write_texts, as_number-Numeric,
  first-none, back_stream, is_set-write_stream,
}
use prism_pipe.Proxy.OpenAi.Reading.{
  Reading, known_keys, read_fields, read_messages, read_stop, read_tool, read_tools, to_canonical,
}
use prism_pipe.Proxy.OpenAi.Sending.{
  write_prompt, write_messages, write_tool, write_tools, own_fields, from_canonical,
}
use prism_pipe.Proxy.OpenAi.Conversation.{
  gather, gather_by, AreSendable, back_by, back_messages, read_messages-write_by,
}

module _ (js : Js) where
  read_messages-write_messages :
      (ms : List (CanonicalMessage Json)) (st : Reading)
      → All (λ (m : CanonicalMessage Json). AreSendable js m.role m.content) ms
      → read_messages js (write_messages js ms) st
        ≡ some
            (record { messages = st.messages ++ back_messages js ms; prompt = gather ms st.prompt })
  unfolding read_messages write_messages
  read_messages-write_messages [] st h =
      ap (λ ms. some (record st { messages = ms })) (sym (append-nil st.messages))
  read_messages-write_messages (m ∷ ms) st h =
      let next : Reading = record {
        messages = st.messages ++ back_by js m.role m.content;
        prompt = gather_by m.role m.content st.prompt;
      } in
      read_messages-write_by js m.role m.content (write_messages js ms) st h.0
      ∙ read_messages-write_messages ms next h.1
      ∙ ap (λ xs. some (record { messages = xs; prompt = gather ms next.prompt }))
          (append_assoc st.messages (back_by js m.role m.content) (back_messages js ms))

  abbrev pub start : Reading
  start = record { messages = []; prompt = none }

  pub read_prompt :
      (prompt : Option String) (ms : List (CanonicalMessage Json))
      → All (λ (m : CanonicalMessage Json). AreSendable js m.role m.content) ms
      → read_messages js (write_prompt prompt ++ write_messages js ms) start
        ≡ some (record { messages = back_messages js ms; prompt = gather ms prompt })
  unfolding read_messages read_fields lookup
  read_prompt none ms h = read_messages-write_messages ms start h
  read_prompt (some t) ms h =
      rw (nil-append t)
        (read_messages-write_messages ms (record { messages = []; prompt = some t }) h)

  pub read_stop-write_texts :
      (ts : Option (List String)) → optional (read_stop js) (truthy (write_texts ts)) ≡ some ts
  read_stop-write_texts none = refl
  read_stop-write_texts (some ts) = read_texts-write_texts (some ts)

  pub read_tools-write_tools :
      (ts : Option (List (ToolDefinition Json)))
      → AllTools ts
      → optional (read_tools js) (truthy (write_tools ts)) ≡ some ts
  unfolding read_tool lookup
  read_tools-write_tools none s = refl
  read_tools-write_tools (some ts) s =
      rw
        (
          items-array_of (map write_tool ts),
          traverse-map (read_tool js) write_tool (λ t. t)
              (λ (t : ToolDefinition Json). t.input_schema ≢ null)
              (λ t h.
                ap (λ v. some (record t { input_schema = v }))
                  (or_default-non_null t.input_schema empty_object h))
              ts s,
        )
        (ap (λ xs. some (some xs)) (map-id ts))

  own_fields-Known : (req : CanonicalRequest Json) → Known known_keys (own_fields js req)
  unfolding own_fields
  own_fields-Known req = (
    refl,
    (
      refl,
      Known-opt known_keys "temperature" req.temperature _ refl (
          Known-opt known_keys "max_tokens" req.max_tokens _ refl (
            Known-opt known_keys "top_p" req.top_p _ refl (
              Known-opt known_keys "stop" (write_texts req.stop_sequences) _ refl (
                Known-opt known_keys "stream" (write_stream req.stream) _ refl
                  (Known-opt known_keys "tools" (write_tools req.tools) _ refl tt))))),
    ),
  )

  record Sent (req : CanonicalRequest Json) : Type 0 where
    model : lookup "model" (own_fields js req) ≡ some (str req.model)
    messages :
        lookup "messages" (own_fields js req)
        ≡ some (
            array (
              array_of
                (write_prompt (present req.system_prompt) ++ write_messages js req.messages)))
    temperature : lookup "temperature" (own_fields js req) ≡ req.temperature
    max_tokens : lookup "max_tokens" (own_fields js req) ≡ req.max_tokens
    max_completion_tokens : lookup "max_completion_tokens" (own_fields js req) ≡ none
    top_p : lookup "top_p" (own_fields js req) ≡ req.top_p
    stop : lookup "stop" (own_fields js req) ≡ write_texts req.stop_sequences
    stream : lookup "stream" (own_fields js req) ≡ write_stream req.stream
    tools : lookup "tools" (own_fields js req) ≡ write_tools req.tools

  own_fields-Sent : (req : CanonicalRequest Json) → Sent req
  unfolding own_fields lookup
  own_fields-Sent req = record {
    model = refl;
    messages = refl;
    temperature = simp (lookup-opt, first-none);
    max_tokens = simp (lookup-opt, first-none);
    max_completion_tokens = simp lookup-opt;
    top_p = simp (lookup-opt, first-none);
    stop = simp (lookup-opt, first-none);
    stream = simp (lookup-opt, first-none);
    tools = simp (lookup-opt, first-none);
  }

  -- What can be sent: messages whose tool calls stand beside a text or an image and whose images are
  -- URLs, tools with a schema, numbers where numbers belong, and extras under pairwise different keys
  -- that are neither known nor keys of `Object.prototype`, which are lost.
  pub record IsRequest (req : CanonicalRequest Json) : Type 0 where
    pub messages : All (λ (m : CanonicalMessage Json). AreSendable js m.role m.content) req.messages
    pub tools : AllTools req.tools
    pub temperature : Numeric req.temperature
    pub max_tokens : Numeric req.max_tokens
    pub top_p : Numeric req.top_p
    pub extras : Extra known_keys (entries_of req.extras)

  -- The request that comes back.
  abbrev pub back : CanonicalRequest Json → CanonicalRequest Json
  back req = record req {
    messages = back_messages js req.messages;
    system_prompt = present (gather req.messages (present req.system_prompt));
    stream = back_stream req.stream;
    provider_extensions = none;
    extras = extras_of (entries_of req.extras);
  }

  -- Of a request that can be sent, as `IsRequest` says, which leaves out extras under known keys and
  -- under those of `Object.prototype` such as `constructor`, where the JSON of each tool call's input is read
  -- as that input, all comes back from the OpenAI format as it was, but that system messages join the
  -- system prompt, of a user's or the assistant's blocks the texts and images come back, one text alone
  -- as a text, and behind them the assistant's tool calls, a tool result comes back twice, as a text and
  -- as a result, as does the text of a tool message; an empty system prompt, empty extras or a `stream`
  -- that is false are absent, and provider extensions are dropped.
  pub to_canonical-from_canonical_open_ai :
      (req : CanonicalRequest Json)
      → IsRequest req
      → to_canonical js (from_canonical js req) ≡ some (back req)
  unfolding to_canonical from_canonical
  to_canonical-from_canonical_open_ai req r =
      let f = own_fields-Sent req in
      let x =
        spread-Extra known_keys (entries_of req.extras) (own_fields js req) r.extras
          (own_fields-Known req) in
      rw
        (
          x.0,
          x.1 "model" refl ∙ f.model,
          x.1 "messages" refl ∙ f.messages,
          x.1 "temperature" refl ∙ f.temperature,
          x.1 "max_tokens" refl ∙ f.max_tokens,
          x.1 "max_completion_tokens" refl ∙ f.max_completion_tokens,
          x.1 "top_p" refl ∙ f.top_p,
          x.1 "stop" refl ∙ f.stop,
          x.1 "stream" refl ∙ f.stream,
          x.1 "tools" refl ∙ f.tools,
          items-array_of
              (write_prompt (present req.system_prompt) ++ write_messages js req.messages),
          read_prompt (present req.system_prompt) req.messages r.messages,
        )
        (rw
          (
            as_number-Numeric req.temperature r.temperature,
            as_number-Numeric req.max_tokens r.max_tokens,
            as_number-Numeric req.top_p r.top_p,
            read_stop-write_texts req.stop_sequences,
            read_tools-write_tools req.tools r.tools,
            is_set-write_stream req.stream,
          )
          refl)
