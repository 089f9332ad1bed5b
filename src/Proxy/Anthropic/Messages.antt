-- ===== src/Proxy/Anthropic/Messages.antt =====
-- What of the messages comes back through src/proxy/transforms/anthropic.ts.
use prism_pipe.Prelude.{
  ◌≡◌, ◌≢◌, refl, ap, false, some, String, List, [], ◌∷◌, lookup, map, All, if◌then◌else◌, get_or,
  arith, Bool-cases, inl, inr,
}
use prism_pipe.Core.Canonical.{
  base64, url, ContentBlock, text, image, tool_use, tool_result, thinking, ResultContent, Content,
  plain, blocks, Role, CanonicalMessage,
}
use prism_pipe.Proxy.Json.{Json, null, Js, ◌>>=◌, items-array_of, traverse-map}
use prism_pipe.Proxy.Fields.{empty_object}
use prism_pipe.Proxy.Fields.Trip.{or_default-non_null, role_of-role_text}
use prism_pipe.Proxy.Anthropic.Request.{
  read_block, message_of, read_message, read_messages, write_block, write_content, sent_role,
  is_system, write_message, write_messages,
}

-- A tool call has an input, and the content of a tool result is a text.
abbrev pub IsSendable : ContentBlock Json → Type 0
IsSendable (tool_use id name input) = input ≢ null
IsSendable (tool_result id content e) = (t : String) × (content ≡ ResultContent.plain t)
IsSendable (text t) = Unit
IsSendable (image s) = Unit
IsSendable (thinking t) = Unit

abbrev pub AreSendable : Content Json → Type 0
AreSendable (plain t) = Unit
AreSendable (blocks bs) = All IsSendable bs

abbrev pub back_block : ContentBlock Json → ContentBlock Json
back_block (tool_result id content e) = tool_result id content (some (get_or e false))
back_block (tool_use id name input) = tool_use id name input
back_block (text t) = text t
back_block (image s) = image s
back_block (thinking t) = thinking t

abbrev pub back_content : Content Json → Content Json
back_content (plain t) = plain t
back_content (blocks bs) = blocks (map back_block bs)

abbrev pub back_message : CanonicalMessage Json → CanonicalMessage Json
back_message m = record { role = sent_role m.role; content = back_content m.content }

abbrev pub back_messages : List (CanonicalMessage Json) → List (CanonicalMessage Json)
back_messages [] = []
back_messages (m ∷ ms) =
    let rest = back_messages ms in if is_system m.role then rest else back_message m ∷ rest

read_block-write_block :
    (js : Js) (b : ContentBlock Json)
    → IsSendable b
    → read_block js (write_block b) ≡ some (back_block b)
unfolding read_block write_block lookup
read_block-write_block js (text t) s = refl
read_block-write_block js (image (base64 media_type bytes)) s = refl
read_block-write_block js (image (url u)) s = refl
read_block-write_block js (tool_use id name input) s =
    ap (λ v. some (tool_use id name v)) (or_default-non_null input empty_object s)
read_block-write_block js (tool_result id (ResultContent.plain t) e) s = refl
read_block-write_block js (tool_result id ResultContent.nil e) (t, same) = absurd (ground arith)
read_block-write_block js (tool_result id (ResultContent.cons b bs) e) (t, same) =
    absurd (ground arith)
read_block-write_block js (thinking t) s = refl

message_of-write_content :
    (js : Js) (r : Role) (c : Content Json)
    → AreSendable c
    → message_of js (some (write_content c)) (some r)
      ≡ some (record { role = r; content = back_content c } ∷ [])
unfolding message_of write_content
message_of-write_content js r (plain t) s = refl
message_of-write_content js r (blocks bs) s =
    rw
      (
        items-array_of (map write_block bs),
        traverse-map (read_block js) write_block back_block IsSendable (read_block-write_block js)
            bs s,
      )
      refl

read_message-write_message :
    (js : Js) (m : CanonicalMessage Json)
    → AreSendable m.content
    → read_message js (write_message m) ≡ some (back_message m ∷ [])
unfolding read_message write_message lookup
read_message-write_message js m s =
    rw (role_of-role_text (sent_role m.role))
      (message_of-write_content js (sent_role m.role) m.content s)

pub read_messages-write_messages :
    (js : Js) (ms : List (CanonicalMessage Json))
    → All (λ m. AreSendable m.content) ms
    → read_messages js (write_messages ms) ≡ some (back_messages ms)
unfolding read_messages write_messages
read_messages-write_messages js [] s = refl
read_messages-write_messages js (m ∷ ms) s = elim (Bool-cases (is_system m.role)) [
  | inl dropped ↦ rw dropped (read_messages-write_messages js ms s.1)
  | inr sent ↦
      rw (sent, ◌>>=◌)
        (rw (read_message-write_message js m s.0, read_messages-write_messages js ms s.1) refl)
]
