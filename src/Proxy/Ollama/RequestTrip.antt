-- ===== src/Proxy/Ollama/RequestTrip.antt =====
-- What of a canonical request comes back through src/proxy/transforms/ollama.ts.
use prism_pipe.Prelude.{◌≡◌, refl, ap, ◌∙◌, none, some, [], ◌∷◌, ◌++◌, Map, lookup, All}
use prism_pipe.Core.Canonical.{CanonicalMessage, CanonicalRequest}
use prism_pipe.Compose.Chain.{present}
use prism_pipe.Proxy.Json.{
  Json, str, array, array_of, Js, or_default, as_object, ◌>>=◌, items-array_of, entries-object_of,
}
use prism_pipe.Proxy.Json.Extras.{lookup-opt, Extra, Known, Known-opt, spread-Extra}
use prism_pipe.Proxy.Fields.{empty_object, extras_of, write_texts, write_stream, entries_of}
use prism_pipe.Proxy.Fields.Trip.{
  AllTools, Numeric, as_number-Numeric, first-none, back_stream, is_set-write_stream,
}
use prism_pipe.Proxy.OpenAi.Sending.{write_prompt, write_messages, write_tools}
use prism_pipe.Proxy.OpenAi.Conversation.{gather, AreSendable, back_messages}
use prism_pipe.Proxy.OpenAi.RequestTrip.{read_prompt, read_stop-write_texts, read_tools-write_tools}
use prism_pipe.Proxy.Ollama.Request.{
  known_keys, to_canonical, option_fields, write_options, own_fields, from_canonical,
}

module _ (js : Js) where
  read_options : (m : Map Json) → as_object (or_default (write_options js m) empty_object) ≡ some m
  read_options [] = refl
  read_options (e ∷ es) = ap (λ fields. some (e ∷ fields)) (entries-object_of es)

  own_fields-Known : (req : CanonicalRequest Json) → Known known_keys (own_fields js req)
  unfolding own_fields
  own_fields-Known req = (
    refl,
    (
      refl,
      Known-opt known_keys "options" (write_options js (option_fields js req)) _ refl (
          Known-opt known_keys "stream" (write_stream req.stream) _ refl
            (Known-opt known_keys "tools" (write_tools req.tools) _ refl tt)),
    ),
  )

  record Sent (req : CanonicalRequest Json) : Type 0 where
    options : lookup "options" (own_fields js req) ≡ write_options js (option_fields js req)
    stream : lookup "stream" (own_fields js req) ≡ write_stream req.stream
    tools : lookup "tools" (own_fields js req) ≡ write_tools req.tools
    temperature : lookup "temperature" (option_fields js req) ≡ req.temperature
    num_predict : lookup "num_predict" (option_fields js req) ≡ req.max_tokens
    top_p : lookup "top_p" (option_fields js req) ≡ req.top_p
    stop : lookup "stop" (option_fields js req) ≡ write_texts req.stop_sequences

  own_fields-Sent : (req : CanonicalRequest Json) → Sent req
  unfolding own_fields lookup
  own_fields-Sent req = record {
    options = simp (lookup-opt, first-none);
    stream = simp (lookup-opt, first-none);
    tools = simp (lookup-opt, first-none);
    temperature = simp (lookup-opt, first-none);
    num_predict = simp (lookup-opt, first-none);
    top_p = simp (lookup-opt, first-none);
    stop = simp (lookup-opt, first-none);
  }

  own_messages :
      (req : CanonicalRequest Json)
      → lookup "messages" (own_fields js req)
        ≡ some (
            array (
              array_of
                (write_prompt (present req.system_prompt) ++ write_messages js req.messages)))
  unfolding own_fields lookup
  own_messages req = refl

  own_model :
      (req : CanonicalRequest Json) → lookup "model" (own_fields js req) ≡ some (str req.model)
  unfolding own_fields lookup
  own_model req = refl

  -- What can be sent: messages as the OpenAI format takes them, tools with a schema, numbers where
  -- numbers belong, and extras under pairwise different keys that are neither known nor keys
  -- of `Object.prototype`, which are lost.
  pub record IsRequest (req : CanonicalRequest Json) : Type 0 where
    pub messages : All (λ (m : CanonicalMessage Json). AreSendable js m.role m.content) req.messages
    pub tools : AllTools req.tools
    pub temperature : Numeric req.temperature
    pub max_tokens : Numeric req.max_tokens
    pub top_p : Numeric req.top_p
    pub extras : Extra known_keys (entries_of req.extras)

  -- The request that comes back.
  abbrev pub back : CanonicalRequest Json → CanonicalRequest Json
  back req = record req {
    messages = back_messages js req.messages;
    system_prompt = present (gather req.messages (present req.system_prompt));
    stream = back_stream req.stream;
    provider_extensions = none;
    extras = extras_of (entries_of req.extras);
  }

  -- Of a request that can be sent, as `IsRequest` says, which leaves out extras under known keys and
  -- under those of `Object.prototype` such as `constructor`, all comes back from the Ollama format as it does
  -- from the OpenAI format: the settings, which are nested in the options, and the tools as they were,
  -- system messages in the system prompt, of a user's or the assistant's blocks the texts and images with
  -- the assistant's tool calls behind them, tool results and the texts of tool messages twice; an empty
  -- system prompt, empty extras or a `stream` that is false are absent, and provider extensions are
  -- dropped.
  pub to_canonical-from_canonical_ollama :
      (req : CanonicalRequest Json)
      → IsRequest req
      → to_canonical js (from_canonical js req) ≡ some (back req)
  unfolding to_canonical from_canonical
  to_canonical-from_canonical_ollama req r =
      let f = own_fields-Sent req in
      let x =
        spread-Extra known_keys (entries_of req.extras) (own_fields js req) r.extras
          (own_fields-Known req) in
      rw
        (
          x.0,
          x.1 "model" refl ∙ own_model req,
          x.1 "messages" refl ∙ own_messages req,
          x.1 "options" refl ∙ f.options,
          x.1 "stream" refl ∙ f.stream,
          x.1 "tools" refl ∙ f.tools,
          items-array_of
              (write_prompt (present req.system_prompt) ++ write_messages js req.messages),
          read_prompt js (present req.system_prompt) req.messages r.messages,
          read_options (option_fields js req),
          ◌>>=◌,
          f.temperature,
          f.num_predict,
          f.top_p,
          f.stop,
        )
        (rw
          (
            as_number-Numeric req.temperature r.temperature,
            as_number-Numeric req.max_tokens r.max_tokens,
            as_number-Numeric req.top_p r.top_p,
            read_stop-write_texts js req.stop_sequences,
            read_tools-write_tools js req.tools r.tools,
            is_set-write_stream req.stream,
          )
          refl)
