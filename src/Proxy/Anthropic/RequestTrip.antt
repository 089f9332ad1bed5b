-- ===== src/Proxy/Anthropic/RequestTrip.antt =====
-- What of a canonical request comes back from `toCanonical` of src/proxy/transforms/anthropic.ts when
-- it is given what `fromCanonical` made of it.
use prism_pipe.Prelude.{◌≡◌, ◌≢◌, refl, ◌∙◌, ap, Option, none, some, List, lookup, map, All, get_or}
use prism_pipe.Core.Canonical.{CanonicalMessage, CanonicalRequest, ToolDefinition}
use prism_pipe.Compose.Chain.{present}
use prism_pipe.Proxy.Json.{
  Json, null, num, str, array, array_of, Js, truthy, optional, items-array_of, traverse-map,
}
use prism_pipe.Proxy.Json.Extras.{lookup-opt, Extra, Known, Known-opt, spread-Extra}
use prism_pipe.Proxy.Fields.{
  empty_object, extras_of, write_texts, write_stream, write_system, entries_of,
}
use prism_pipe.Proxy.Fields.Trip.{
  AllTools, Numeric, or_default-non_null, map-id, read_texts-write_texts, as_number-Numeric,
  first-none, back_stream, is_set-write_stream, read_system-write_system,
}
use prism_pipe.Proxy.Anthropic.Request.{
  read_tool, read_tools, known_keys, to_canonical, write_messages, write_tool, write_tools,
  own_fields, from_canonical,
}
use prism_pipe.Proxy.Anthropic.Messages.{AreSendable, back_messages, read_messages-write_messages}

-- The parts of `toCanonical`, given what `fromCanonical` writes.
read_tools-write_tools :
    (js : Js) (ts : Option (List (ToolDefinition Json)))
    → AllTools ts
    → optional (read_tools js) (truthy (write_tools ts)) ≡ some ts
unfolding read_tool lookup
read_tools-write_tools js none s = refl
read_tools-write_tools js (some ts) s =
    rw
      (
        items-array_of (map write_tool ts),
        traverse-map (read_tool js) write_tool (λ t. t)
            (λ (t : ToolDefinition Json). t.input_schema ≢ null)
            (λ t h.
              ap (λ v. some (record t { input_schema = v }))
                (or_default-non_null t.input_schema empty_object h))
            ts s,
      )
      (ap (λ xs. some (some xs)) (map-id ts))

own_fields-Known : (req : CanonicalRequest Json) → Known known_keys (own_fields req)
unfolding own_fields
own_fields-Known req = (
  refl,
  (
    refl,
    Known-opt known_keys "system" (write_system req.system_prompt) _ refl (
      refl,
      Known-opt known_keys "temperature" req.temperature _ refl (
          Known-opt known_keys "top_p" req.top_p _ refl (
            Known-opt known_keys "stop_sequences" (write_texts req.stop_sequences) _ refl (
              Known-opt known_keys "stream" (write_stream req.stream) _ refl
                (Known-opt known_keys "tools" (write_tools req.tools) _ refl tt)))),
    ),
  ),
)

record Sent (req : CanonicalRequest Json) : Type 0 where
  model : lookup "model" (own_fields req) ≡ some (str req.model)
  messages :
      lookup "messages" (own_fields req) ≡ some (array (array_of (write_messages req.messages)))
  system_prompt : lookup "system" (own_fields req) ≡ write_system req.system_prompt
  max_tokens : lookup "max_tokens" (own_fields req) ≡ some (get_or req.max_tokens (num 4096))
  temperature : lookup "temperature" (own_fields req) ≡ req.temperature
  top_p : lookup "top_p" (own_fields req) ≡ req.top_p
  stop_sequences : lookup "stop_sequences" (own_fields req) ≡ write_texts req.stop_sequences
  stream : lookup "stream" (own_fields req) ≡ write_stream req.stream
  tools : lookup "tools" (own_fields req) ≡ write_tools req.tools

own_fields-Sent : (req : CanonicalRequest Json) → Sent req
unfolding own_fields lookup
own_fields-Sent req = record {
  model = refl;
  messages = refl;
  system_prompt = simp (lookup-opt, first-none);
  max_tokens = simp lookup-opt;
  temperature = simp (lookup-opt, first-none);
  top_p = simp (lookup-opt, first-none);
  stop_sequences = simp (lookup-opt, first-none);
  stream = simp (lookup-opt, first-none);
  tools = simp (lookup-opt, first-none);
}

-- What can be sent: tool calls with an input, tool results that are texts, tools with a schema,
-- numbers where numbers belong, and extras under pairwise different keys that are neither known nor
-- keys of `Object.prototype`, which are lost.
pub record IsRequest (req : CanonicalRequest Json) : Type 0 where
  pub messages : All (λ (m : CanonicalMessage Json). AreSendable m.content) req.messages
  pub tools : AllTools req.tools
  pub temperature : Numeric req.temperature
  pub max_tokens : Numeric req.max_tokens
  pub top_p : Numeric req.top_p
  pub extras : Extra known_keys (entries_of req.extras)

-- The request that comes back.
abbrev pub back : CanonicalRequest Json → CanonicalRequest Json
back req = record req {
  messages = back_messages req.messages;
  system_prompt = present req.system_prompt;
  max_tokens = some (get_or req.max_tokens (num 4096));
  stream = back_stream req.stream;
  provider_extensions = none;
  extras = extras_of (entries_of req.extras);
}

as_number-default : (v : Option Json) → Numeric v → Numeric (some (get_or v (num 4096)))
as_number-default none n = refl
as_number-default (some v) n = n

-- Of a request that can be sent, as `IsRequest` says, which leaves out extras under known keys and
-- under those of `Object.prototype` such as `constructor`, all comes back from the Anthropic format as it
-- was, but that system messages are left out, tool messages have the role `user`, a tool result says
-- whether it is an error, an empty system prompt, empty extras or a `stream` that is false are absent,
-- provider extensions are dropped, and `maxTokens` is 4096 where there was none.
pub to_canonical-from_canonical :
    (js : Js) (req : CanonicalRequest Json)
    → IsRequest req
    → to_canonical js (from_canonical req) ≡ some (back req)
unfolding to_canonical from_canonical
to_canonical-from_canonical js req r =
    let f = own_fields-Sent req in
    let x =
      spread-Extra known_keys (entries_of req.extras) (own_fields req) r.extras
        (own_fields-Known req) in
    rw
      (
        x.0,
        x.1 "model" refl ∙ f.model,
        x.1 "messages" refl ∙ f.messages,
        x.1 "system" refl ∙ f.system_prompt,
        x.1 "max_tokens" refl ∙ f.max_tokens,
        x.1 "temperature" refl ∙ f.temperature,
        x.1 "top_p" refl ∙ f.top_p,
        x.1 "stop_sequences" refl ∙ f.stop_sequences,
        x.1 "stream" refl ∙ f.stream,
        x.1 "tools" refl ∙ f.tools,
        items-array_of (write_messages req.messages),
        read_messages-write_messages js req.messages r.messages,
      )
      (rw
        (
          as_number-Numeric req.temperature r.temperature,
          as_number-Numeric (some (get_or req.max_tokens (num 4096)))
              (as_number-default req.max_tokens r.max_tokens),
          as_number-Numeric req.top_p r.top_p,
          read_texts-write_texts req.stop_sequences,
          read_tools-write_tools js req.tools r.tools,
          is_set-write_stream req.stream,
          read_system-write_system js req.system_prompt,
        )
        refl)
