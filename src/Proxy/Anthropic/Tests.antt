-- ===== src/Proxy/Anthropic/Tests.antt =====
-- Runs of the Anthropic transform, and its theorems at concrete values.
use prism_pipe.Prelude.{◌≡◌, refl, true, false, none, some, [], ◌∷◌, lookup, has, arith}
use prism_pipe.Core.Canonical.{
  text, base64, image, tool_use, tool_result, thinking, ResultContent, plain, blocks, user,
  assistant, system, tool, CanonicalRequest, CanonicalResponse, content_filter, StopReason,
  CanonicalStreamChunk, tool_use_delta,
}
use prism_pipe.Proxy.Json.{Json, num, number, str, array, object, nil, cons, end, pair, Js, ◌>>=◌}
use prism_pipe.Proxy.Json.Extras.{spread}
use prism_pipe.Proxy.Fields.{no_delta, chunk}
use prism_pipe.Proxy.Anthropic.Request.{to_canonical, from_canonical}
use prism_pipe.Proxy.Anthropic.RequestTrip.{back, to_canonical-from_canonical}
use prism_pipe.Proxy.Anthropic.Response.{response_to_canonical, response_from_canonical}

abbrev runtime : Js
runtime = record { text_of = λ v. "[object Object]"; stringify = λ v. "{}"; parse = λ s. none }

abbrev asked : CanonicalRequest Json
asked = record {
  model = "m";
  messages =
      record { role = system; content = plain "Be brief." }
      ∷ record {
        role = user;
        content = blocks (image (base64 "image/png" "AA==") ∷ text "what?" ∷ []);
      }
      ∷ record {
        role = assistant;
        content = blocks (thinking "hm" ∷ tool_use "t1" "zoom" (object end) ∷ []);
      }
      ∷ record {
        role = tool;
        content = blocks (tool_result "t1" (ResultContent.plain "a cat") none ∷ []);
      }
      ∷ [];
  system_prompt = some "";
  tools = some (record { name = "zoom"; description = "zooms"; input_schema = object end } ∷ []);
  temperature = some (number "0.5");
  max_tokens = none;
  top_p = none;
  stop_sequences = some ("." ∷ []);
  stream = some true;
  provider_extensions = none;
  extras = some (object (pair "top_k" (num 5) end));
}

written : lookup "system" (from_canonical asked) ≡ none
unfolding from_canonical spread lookup has
written = refl

received :
    (do
      r ←
          to_canonical runtime
            (("model", str "m") ∷ ("system", str "Be brief.") ∷ ("top_k", num 5) ∷ [])
      some r.extras)
    ≡ some (some (object (pair "top_k" (num 5) end)))
unfolding to_canonical lookup
received = refl

-- A tool result that holds blocks becomes the text of an object.
blocks_lost :
    (do
      r ← to_canonical runtime (
          (
            "messages",
            array (
                cons
                  (object (
                    pair "role" (str "user") (
                      pair "content"
                        (array (
                          cons
                            (object (
                              pair "type" (str "tool_result") (
                                pair "tool_use_id" (str "t1") (
                                  pair "content"
                                    (array (
                                      cons
                                        (object (
                                          pair "type" (str "text") (pair "text" (str "a cat") end)))
                                        nil))
                                    end))))
                            nil))
                        end)))
                  nil),
          )
          ∷ [])
      some r.messages)
    ≡ some (
        record {
          role = user;
          content =
              blocks (tool_result "t1" (ResultContent.plain "[object Object]") (some false) ∷ []);
        }
        ∷ [])
unfolding to_canonical lookup
blocks_lost = refl

to_canonical-from_canonical_example :
    to_canonical runtime (from_canonical asked) ≡ some (back asked)
unfolding has
to_canonical-from_canonical_example = to_canonical-from_canonical runtime asked (record {
  messages = (tt, ((tt, (tt, tt)), ((tt, (ground arith, tt)), ((("a cat", refl), tt), tt))));
  tools = (ground arith, tt);
  temperature = refl;
  max_tokens = tt;
  top_p = tt;
  extras = (refl, refl, refl, tt);
})

abbrev answered : CanonicalResponse Json
answered = record {
  id = "r1";
  model = "m";
  content = thinking "hm" ∷ tool_use "t1" "zoom" (object end) ∷ text "done" ∷ [];
  stop_reason = content_filter;
  usage = record { input_tokens = 3; output_tokens = 4; total_tokens = 0 };
  provider_extensions = none;
}

abbrev named_chunk : CanonicalStreamChunk
named_chunk = chunk tool_use_delta (some (record no_delta { tool_name = some "zoom" })) none

-- An answer that was filtered comes back as one that ended.
filtered :
    response_to_canonical runtime (response_from_canonical runtime answered)
    ≡ some (record answered {
      stop_reason = StopReason.end;
      usage = record { input_tokens = 3; output_tokens = 4; total_tokens = 7 };
    })
unfolding response_to_canonical response_from_canonical lookup
filtered = refl
