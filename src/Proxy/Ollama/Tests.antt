-- ===== src/Proxy/Ollama/Tests.antt =====
-- Runs of the Ollama transform, and its theorem at a concrete request.
use prism_pipe.Prelude.{◌≡◌, refl, true, none, some, [], ◌∷◌, strip, take_until, lookup, has, arith}
use prism_pipe.Core.Canonical.{
  text, base64, image, tool_use, plain, blocks, user, assistant, system, CanonicalRequest, usage,
}
use prism_pipe.Proxy.Json.{Json, bool, num, number, str, object, end, pair, Js}
use prism_pipe.Proxy.Fields.{chunk}
use prism_pipe.Proxy.OpenAi.DataUrl.{match_data}
use prism_pipe.Proxy.OpenAi.Sending.{parts_of, calls_of}
use prism_pipe.Proxy.Ollama.Request.{to_canonical, from_canonical}
use prism_pipe.Proxy.Ollama.RequestTrip.{back, to_canonical-from_canonical_ollama}
use prism_pipe.Proxy.Ollama.Response.{read_text, chunk_to_canonical}

abbrev runtime : Js
runtime = record {
  text_of = λ v. "[object Object]";
  stringify = λ v. "{}";
  parse = λ s. some (object end);
}

blank : read_text runtime (some (str " \n")) ≡ []
unfolding read_text
blank = refl

counted :
    chunk_to_canonical runtime (("done", bool true) ∷ ("eval_count", num 4) ∷ [])
    ≡ some
        (chunk usage none (some (record { input_tokens = 0; output_tokens = 4; total_tokens = 4 })))
unfolding chunk_to_canonical lookup
counted = refl

abbrev asked : CanonicalRequest Json
asked = record {
  model = "llama";
  messages =
      record { role = system; content = plain "Be kind." }
      ∷ record { role = user; content = blocks (image (base64 "image/png" "AA==") ∷ []) }
      ∷ record {
        role = assistant;
        content = blocks (text "a moment" ∷ tool_use "t1" "zoom" (object end) ∷ []);
      }
      ∷ [];
  system_prompt = some "Be brief.";
  tools = some (record { name = "zoom"; description = "zooms"; input_schema = object end } ∷ []);
  temperature = some (number "0.5");
  max_tokens = some (num 100);
  top_p = none;
  stop_sequences = none;
  stream = none;
  provider_extensions = none;
  extras = some (object (pair "keep_alive" (num 5) end));
}

to_canonical-from_canonical_ollama_example :
    to_canonical runtime (from_canonical runtime asked) ≡ some (back runtime asked)
unfolding has parts_of calls_of match_data take_until strip
to_canonical-from_canonical_ollama_example =
    to_canonical-from_canonical_ollama runtime asked (record {
      messages = (tt, ((refl, (((refl, refl), (refl, refl)), tt)), ((refl, (tt, (refl, tt))), tt)));
      tools = (ground arith, tt);
      temperature = refl;
      max_tokens = refl;
      top_p = tt;
      extras = (refl, refl, refl, tt);
    })
