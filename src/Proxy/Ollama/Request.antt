-- ===== src/Proxy/Ollama/Request.antt =====
-- `toCanonical` and `fromCanonical` of src/proxy/transforms/ollama.ts.
use prism_pipe.Prelude.{Option, none, some, String, List, [], ◌∷◌, ◌++◌, Map, lookup}
use prism_pipe.Core.Canonical.{CanonicalRequest}
use prism_pipe.Compose.Chain.{present}
use prism_pipe.Proxy.Json.{
  Json, str, array, object, nil, array_of, object_of, Js, string_of, or_default, truthy, non_null,
  as_object, as_array, as_number, ◌>>=◌, optional,
}
use prism_pipe.Proxy.Json.Extras.{opt, unknown_entries, spread}
use prism_pipe.Proxy.Fields.{empty_object, extras_of, is_set, write_texts, write_stream, entries_of}
use prism_pipe.Proxy.OpenAi.Reading.{read_messages, read_stop, read_tools}
use prism_pipe.Proxy.OpenAi.Sending.{write_prompt, write_messages, write_tools}

abbrev pub known_keys : List String
known_keys = "model" ∷ "messages" ∷ "options" ∷ "stream" ∷ "tools" ∷ "format" ∷ []

module _ (js : Js) where
  unfoldable pub to_canonical : Map Json → Option (CanonicalRequest Json)
  unfolding read_messages unknown_entries
  to_canonical r = do
    raws ← as_array (or_default (lookup "messages" r) (array nil))
    st ← read_messages js raws (record { messages = []; prompt = none })
    options ← as_object (or_default (lookup "options" r) empty_object)
    temperature ← optional as_number (non_null (lookup "temperature" options))
    max_tokens ← optional as_number (non_null (lookup "num_predict" options))
    top_p ← optional as_number (non_null (lookup "top_p" options))
    stop_sequences ← optional (read_stop js) (truthy (lookup "stop" options))
    tools ← optional (read_tools js) (truthy (lookup "tools" r))
    some (record {
      model = string_of js (some (or_default (lookup "model" r) (str "")));
      messages = st.messages;
      system_prompt = present st.prompt;
      tools = tools;
      temperature = temperature;
      max_tokens = max_tokens;
      top_p = top_p;
      stop_sequences = stop_sequences;
      stream = is_set (truthy (lookup "stream" r));
      provider_extensions = none;
      extras = extras_of (unknown_entries known_keys r);
    })

  abbrev pub option_fields : CanonicalRequest Json → Map Json
  option_fields req = opt "temperature" req.temperature (
      opt "num_predict" req.max_tokens
        (opt "top_p" req.top_p (opt "stop" (write_texts req.stop_sequences) [])))

  -- `if (Object.keys(options).length > 0) result.options = options`
  abbrev pub write_options : Map Json → Option Json
  write_options [] = none
  write_options (e ∷ es) = some (object (object_of (e ∷ es)))

  unfoldable pub own_fields : CanonicalRequest Json → Map Json
  unfolding write_messages
  own_fields req =
      ("model", str req.model)
      ∷ (
        "messages",
        array
            (array_of (write_prompt (present req.system_prompt) ++ write_messages js req.messages)),
      )
      ∷ opt "options" (write_options (option_fields req))
          (opt "stream" (write_stream req.stream) (opt "tools" (write_tools req.tools) []))

  unfoldable pub from_canonical : CanonicalRequest Json → Map Json
  unfolding own_fields spread
  from_canonical req = spread (entries_of req.extras) (own_fields req)
