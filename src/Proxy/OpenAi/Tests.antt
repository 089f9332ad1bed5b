-- ===== src/Proxy/OpenAi/Tests.antt =====
-- Runs of the OpenAI transform, and its theorems at concrete values.
use prism_pipe.Prelude.{
  ◌≡◌, refl, true, none, some, [], ◌∷◌, strip, take_until, drop_until, lookup, has, arith,
}
use prism_pipe.Core.Canonical.{
  text, base64, url, image, tool_use, tool_result, ResultContent, plain, blocks, user, assistant,
  system, tool, CanonicalMessage, CanonicalRequest, CanonicalResponse, content_filter,
  tool_use_delta, done, CanonicalStreamChunk,
}
use prism_pipe.Proxy.Json.{Json, num, number, str, object, end, pair, Js}
use prism_pipe.Proxy.Fields.{no_delta, chunk}
use prism_pipe.Proxy.OpenAi.DataUrl.{match_data}
use prism_pipe.Proxy.OpenAi.Reading.{read_call, read_message, to_canonical}
use prism_pipe.Proxy.OpenAi.Sending.{parts_of, calls_of, result_text, from_canonical}
use prism_pipe.Proxy.OpenAi.RequestTrip.{back, to_canonical-from_canonical_open_ai}
use prism_pipe.Proxy.OpenAi.Lost.{only_calls, read_message-only_calls}
use prism_pipe.Proxy.OpenAi.Response.{response_to_canonical, response_from_canonical}
use prism_pipe.Proxy.OpenAi.ResponseTrip.{
  back_response, response_to_canonical-response_from_canonical_open_ai,
}
use prism_pipe.Proxy.OpenAi.Stream.{chunk_to_canonical}

abbrev runtime : Js
runtime = record {
  text_of = λ v. "[object Object]";
  stringify = λ v. "{}";
  parse = λ s. some (object end);
}

matched : match_data "data:image/png;base64,AA==" ≡ some ("image/png", "AA==")
unfolding match_data strip take_until drop_until
matched = refl

ended : chunk_to_canonical runtime (str " [DONE]\n") ≡ some (chunk done none none)
unfolding chunk_to_canonical
ended = refl

abbrev asked : CanonicalRequest Json
asked = record {
  model = "m";
  messages =
      record { role = system; content = plain "Be kind." }
      ∷ record {
        role = user;
        content =
            blocks (image (base64 "image/png" "AA==") ∷ text "what?" ∷ image (url "a.png") ∷ []);
      }
      ∷ record {
        role = assistant;
        content = blocks (text "a moment" ∷ tool_use "t1" "zoom" (object end) ∷ []);
      }
      ∷ record {
        role = tool;
        content = blocks (tool_result "t1" (ResultContent.plain "a cat") none ∷ []);
      }
      ∷ [];
  system_prompt = some "Be brief.";
  tools = some (record { name = "zoom"; description = "zooms"; input_schema = object end } ∷ []);
  temperature = some (number "0.5");
  max_tokens = some (num 100);
  top_p = none;
  stop_sequences = some ("." ∷ []);
  stream = some true;
  provider_extensions = none;
  extras = some (object (pair "seed" (num 5) end));
}

asked_again :
    (back runtime asked).messages
    ≡ record {
      role = user;
      content =
          blocks (image (base64 "image/png" "AA==") ∷ text "what?" ∷ image (url "a.png") ∷ []);
    }
      ∷ record {
        role = assistant;
        content = blocks (text "a moment" ∷ tool_use "t1" "zoom" (object end) ∷ []);
      }
      ∷ record { role = tool; content = plain "a cat" }
      ∷ record {
        role = tool;
        content = blocks (tool_result "t1" (ResultContent.plain "a cat") none ∷ []);
      }
      ∷ []
unfolding calls_of result_text
asked_again = refl

to_canonical-from_canonical_open_ai_example :
    to_canonical runtime (from_canonical runtime asked) ≡ some (back runtime asked)
unfolding has parts_of calls_of match_data take_until strip
to_canonical-from_canonical_open_ai_example =
    to_canonical-from_canonical_open_ai runtime asked (record {
      messages = (
        tt,
        (
          (refl, (((refl, refl), (refl, refl)), (tt, (refl, tt)))),
          ((refl, (tt, (refl, tt))), (tt, tt)),
        ),
      );
      tools = (ground arith, tt);
      temperature = refl;
      max_tokens = refl;
      top_p = tt;
      extras = (refl, refl, refl, tt);
    })

abbrev call : Json
call = object (
    pair "id" (str "t1") (
      pair "type" (str "function") (
        pair "function" (object (pair "name" (str "zoom") (pair "arguments" (str "{}") end))) end)))

abbrev asking : CanonicalMessage Json
asking = record { role = user; content = plain "what?" }

read_message-only_calls_example :
    read_message runtime (only_calls (call ∷ [])) (record { messages = asking ∷ []; prompt = none })
    ≡ some (record { messages = asking ∷ []; prompt = none })
unfolding lookup read_call
read_message-only_calls_example =
    read_message-only_calls runtime (call ∷ []) (tool_use "t1" "zoom" (object end) ∷ []) [] asking
      none refl refl

abbrev answered : CanonicalResponse Json
answered = record {
  id = "r1";
  model = "m";
  content = text "a " ∷ tool_use "t1" "zoom" (object end) ∷ text "cat" ∷ [];
  stop_reason = content_filter;
  usage = record { input_tokens = 3; output_tokens = 4; total_tokens = 9 };
  provider_extensions = none;
}

response_to_canonical-response_from_canonical_open_ai_example :
    response_to_canonical runtime (response_from_canonical runtime answered)
    ≡ some (back_response runtime answered)
unfolding calls_of result_text
response_to_canonical-response_from_canonical_open_ai_example =
    response_to_canonical-response_from_canonical_open_ai runtime answered (refl, tt)

abbrev named_chunk : CanonicalStreamChunk
named_chunk =
    chunk tool_use_delta (some (record no_delta { tool_name = some "zoom"; input_json = some "" }))
      none
