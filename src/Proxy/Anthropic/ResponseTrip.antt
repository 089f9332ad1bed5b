-- ===== src/Proxy/Anthropic/ResponseTrip.antt =====
-- What of a canonical response comes back through src/proxy/transforms/anthropic.ts.
use prism_pipe.Prelude.{◌+◌, ◌≡◌, ◌≢◌, refl, ap, none, some, lookup, map, All}
use prism_pipe.Core.Canonical.{
  ContentBlock, text, image, tool_use, tool_result, thinking, StopReason, content_filter, unknown,
  stop_sequence, CanonicalResponse,
}
use prism_pipe.Proxy.Json.{Json, null, Js, items-array_of, traverse-map}
use prism_pipe.Proxy.Fields.{empty_object}
use prism_pipe.Proxy.Fields.Trip.{or_default-non_null}
use prism_pipe.Proxy.Raw.{raw_block}
use prism_pipe.Proxy.Anthropic.Response.{
  read_response_block, response_to_canonical, write_response_block, response_from_canonical,
  stop_reason_of, stop_text,
}

-- A tool call has an input.
abbrev pub HasInput : ContentBlock Json → Type 0
HasInput (tool_use id name input) = input ≢ null
HasInput (text t) = Unit
HasInput (image s) = Unit
HasInput (tool_result id content e) = Unit
HasInput (thinking t) = Unit

abbrev pub back_response_block : Js → ContentBlock Json → ContentBlock Json
back_response_block js (text t) = text t
back_response_block js (tool_use id name input) = tool_use id name input
back_response_block js (thinking t) = thinking t
back_response_block js (image s) = text (js.stringify (raw_block (image s)))
back_response_block js (tool_result id content e) =
    text (js.stringify (raw_block (tool_result id content e)))

abbrev pub back_stop : StopReason → StopReason
back_stop content_filter = StopReason.end
back_stop unknown = StopReason.end
back_stop StopReason.end = StopReason.end
back_stop StopReason.max_tokens = StopReason.max_tokens
back_stop StopReason.tool_use = StopReason.tool_use
back_stop stop_sequence = stop_sequence

abbrev pub back_response : Js → CanonicalResponse Json → CanonicalResponse Json
back_response js res = record res {
  content = map (back_response_block js) res.content;
  stop_reason = back_stop res.stop_reason;
  usage = record (res.usage) { total_tokens = res.usage.input_tokens + res.usage.output_tokens };
  provider_extensions = none;
}

read_response_block-write_response_block :
    (js : Js) (b : ContentBlock Json)
    → HasInput b
    → read_response_block js (write_response_block js b) ≡ some (back_response_block js b)
unfolding read_response_block write_response_block lookup
read_response_block-write_response_block js (text t) h = refl
read_response_block-write_response_block js (image s) h = refl
read_response_block-write_response_block js (tool_use id name input) h =
    ap (λ v. some (tool_use id name v)) (or_default-non_null input empty_object h)
read_response_block-write_response_block js (tool_result id content e) h = refl
read_response_block-write_response_block js (thinking t) h = refl

stop_reason_of-stop_text : (r : StopReason) → stop_reason_of (stop_text r) ≡ back_stop r
stop_reason_of-stop_text content_filter = refl
stop_reason_of-stop_text unknown = refl
stop_reason_of-stop_text StopReason.end = refl
stop_reason_of-stop_text StopReason.max_tokens = refl
stop_reason_of-stop_text StopReason.tool_use = refl
stop_reason_of-stop_text stop_sequence = refl

-- Of a response whose tool calls have an input, all comes back from the Anthropic format as it was,
-- but that an image or a tool result becomes the text of its JSON, the stop reasons `content_filter`
-- and `unknown` become `end`, the total is the sum of the two counts, and the extensions are dropped.
pub response_to_canonical-response_from_canonical :
    (js : Js) (res : CanonicalResponse Json)
    → All HasInput res.content
    → response_to_canonical js (response_from_canonical js res) ≡ some (back_response js res)
unfolding response_to_canonical response_from_canonical lookup
response_to_canonical-response_from_canonical js res h =
    rw
      (
        items-array_of (map (write_response_block js) res.content),
        traverse-map (read_response_block js) (write_response_block js) (back_response_block js)
            HasInput (read_response_block-write_response_block js) res.content h,
        stop_reason_of-stop_text res.stop_reason,
      )
      refl
