-- ===== src/Proxy/OpenAi/Conversation.antt =====
-- What of a conversation comes back through src/proxy/transforms/openai.ts.
use mathlib.Core.List.{append_assoc, append-nil}
use prism_pipe.Prelude.{
  ◌≡◌, refl, sym, ap, ◌∙◌, true, Option, none, some, String, List, [], ◌∷◌, ◌++◌, map, All, lookup,
}
use prism_pipe.Core.Canonical.{
  ContentBlock, text, image, tool_use, tool_result, thinking, ResultContent, Content, plain, blocks,
  Role, user, assistant, system, tool, CanonicalMessage,
}
use prism_pipe.Proxy.Json.{Json, Js, ◌>>=◌, entries-object_of}
use prism_pipe.Proxy.OpenAi.DataUrl.{IsSource, image_of-url_of}
use prism_pipe.Proxy.OpenAi.Reading.{
  Reading, join_prompt, read_content, merge_calls, read_other, read_fields, read_message,
  read_messages,
}
use prism_pipe.Proxy.OpenAi.Sending.{
  parts_of, calls_of, entry, write_entry, result_text, write_results, write_by, system_text,
}
use prism_pipe.Proxy.OpenAi.Messages.{
  part_block, is_visible, back_entry, Parses, sends_entry, read_entry,
}

abbrev pub kept_blocks : List (ContentBlock Json) → List (ContentBlock Json)
kept_blocks [] = []
kept_blocks (text t ∷ bs) = text t ∷ kept_blocks bs
kept_blocks (image s ∷ bs) = image s ∷ kept_blocks bs
kept_blocks (tool_use id name input ∷ bs) = kept_blocks bs
kept_blocks (tool_result id content e ∷ bs) = kept_blocks bs
kept_blocks (thinking t ∷ bs) = kept_blocks bs

abbrev pub tool_said : String → String → List (CanonicalMessage Json)
tool_said id t =
    record { role = tool; content = plain t }
    ∷ record { role = tool; content = blocks (tool_result id (ResultContent.plain t) none ∷ []) }
    ∷ []

-- The system prompt that a conversation adds up to.
abbrev pub gather_by : Role → Content Json → Option String → Option String
gather_by system c prompt = some (join_prompt prompt (system_text c))
gather_by user c prompt = prompt
gather_by assistant c prompt = prompt
gather_by tool c prompt = prompt

abbrev pub gather : List (CanonicalMessage Json) → Option String → Option String
gather [] prompt = prompt
gather (m ∷ ms) prompt = gather ms (gather_by m.role m.content prompt)

module _ (js : Js) where
  abbrev pub IsSendable : ContentBlock Json → Type 0
  IsSendable (image s) = IsSource s
  IsSendable (tool_use id name input) = Parses js (record { id = id; name = name; input = input })
  IsSendable (text t) = Unit
  IsSendable (tool_result id content e) = Unit
  IsSendable (thinking t) = Unit

  -- The blocks of a user or of the assistant.
  abbrev pub AreSendable : Role → Content Json → Type 0
  AreSendable user (blocks bs) = (is_visible (parts_of bs) (calls_of bs) ≡ true) × All IsSendable bs
  AreSendable assistant (blocks bs) =
      (is_visible (parts_of bs) (calls_of bs) ≡ true) × All IsSendable bs
  AreSendable user (plain t) = Unit
  AreSendable assistant (plain t) = Unit
  AreSendable system c = Unit
  AreSendable tool c = Unit

  abbrev pub back_results : List (ContentBlock Json) → List (CanonicalMessage Json)
  back_results [] = []
  back_results (tool_result id content e ∷ bs) =
      tool_said id (result_text js content) ++ back_results bs
  back_results (text t ∷ bs) = back_results bs
  back_results (image s ∷ bs) = back_results bs
  back_results (tool_use id name input ∷ bs) = back_results bs
  back_results (thinking t ∷ bs) = back_results bs

  abbrev pub back_blocks : Role → List (ContentBlock Json) → CanonicalMessage Json
  back_blocks r bs = record { role = r; content = back_entry r (kept_blocks bs) (calls_of bs) }

  abbrev pub back_by : Role → Content Json → List (CanonicalMessage Json)
  back_by system c = []
  back_by tool (blocks bs) = back_results bs
  back_by tool (plain t) = tool_said "undefined" t
  back_by user (plain t) = record { role = user; content = plain t } ∷ []
  back_by assistant (plain t) = record { role = assistant; content = plain t } ∷ []
  back_by user (blocks bs) = back_blocks user bs ∷ []
  back_by assistant (blocks bs) = back_blocks assistant bs ∷ []

  abbrev pub back_messages : List (CanonicalMessage Json) → List (CanonicalMessage Json)
  back_messages [] = []
  back_messages (m ∷ ms) = back_by m.role m.content ++ back_messages ms

  kept_blocks-parts_of :
      (bs : List (ContentBlock Json))
      → All IsSendable bs
      → map part_block (parts_of bs) ≡ kept_blocks bs
  unfolding parts_of
  kept_blocks-parts_of [] h = refl
  kept_blocks-parts_of (text t ∷ bs) h = ap (λ rest. text t ∷ rest) (kept_blocks-parts_of bs h.1)
  kept_blocks-parts_of (image s ∷ bs) h =
      rw (image_of-url_of s h.0, kept_blocks-parts_of bs h.1) refl
  kept_blocks-parts_of (tool_use id name input ∷ bs) h = kept_blocks-parts_of bs h.1
  kept_blocks-parts_of (tool_result id content e ∷ bs) h = kept_blocks-parts_of bs h.1
  kept_blocks-parts_of (thinking t ∷ bs) h = kept_blocks-parts_of bs h.1

  calls_of-Parses :
      (bs : List (ContentBlock Json)) → All IsSendable bs → All (Parses js) (calls_of bs)
  unfolding calls_of
  calls_of-Parses [] h = tt
  calls_of-Parses (text t ∷ bs) h = calls_of-Parses bs h.1
  calls_of-Parses (image s ∷ bs) h = calls_of-Parses bs h.1
  calls_of-Parses (tool_use id name input ∷ bs) h = (h.0, calls_of-Parses bs h.1)
  calls_of-Parses (tool_result id content e ∷ bs) h = calls_of-Parses bs h.1
  calls_of-Parses (thinking t ∷ bs) h = calls_of-Parses bs h.1

  -- The loop after it has read these messages.
  abbrev after : List (CanonicalMessage Json) → Reading → Reading
  after ms st = record st { messages = st.messages ++ ms }

  after-append :
      (xs ys : List (CanonicalMessage Json)) (st : Reading)
      → after ys (after xs st) ≡ after (xs ++ ys) st
  after-append xs ys st = ap (λ ms. record st { messages = ms }) (append_assoc st.messages xs ys)

  -- A tool message is pushed as a text, and then as a result.
  twice :
      (id t : String) (st : Reading)
      → record st {
        messages =
            (st.messages ++ (record { role = tool; content = plain t } ∷ []))
            ++ (record {
              role = tool;
              content = blocks (tool_result id (ResultContent.plain t) none ∷ []);
            }
                ∷ []);
      }
        ≡ after (tool_said id t) st
  twice id t st =
      after-append (record { role = tool; content = plain t } ∷ [])
        (record { role = tool; content = blocks (tool_result id (ResultContent.plain t) none ∷ []) }
          ∷ [])
        st

  read_messages-write_results :
      (bs : List (ContentBlock Json)) (rest : List Json) (st : Reading)
      → read_messages js (write_results js bs ++ rest) st
        ≡ read_messages js rest (after (back_results bs) st)
  unfolding read_messages read_fields read_other read_content merge_calls write_results lookup
  read_messages-write_results [] rest st =
      ap (λ ms. read_messages js rest (record st { messages = ms })) (sym (append-nil st.messages))
  read_messages-write_results (tool_result id content e ∷ bs) rest st =
      let t = result_text js content in
      ap (read_messages js (write_results js bs ++ rest)) (twice id t st)
      ∙ read_messages-write_results bs rest (after (tool_said id t) st)
      ∙ ap (read_messages js rest) (after-append (tool_said id t) (back_results bs) st)
  read_messages-write_results (text t ∷ bs) rest st = read_messages-write_results bs rest st
  read_messages-write_results (image s ∷ bs) rest st = read_messages-write_results bs rest st
  read_messages-write_results (tool_use id name input ∷ bs) rest st =
      read_messages-write_results bs rest st
  read_messages-write_results (thinking t ∷ bs) rest st = read_messages-write_results bs rest st

  read_sent :
      (r : Role) (bs : List (ContentBlock Json)) (st : Reading)
      → sends_entry r ≡ true
      → is_visible (parts_of bs) (calls_of bs) ≡ true
      → All IsSendable bs
      → read_message js (write_entry js r (parts_of bs) (calls_of bs)) st
        ≡ some (after (back_blocks r bs ∷ []) st)
  unfolding write_entry
  read_sent r bs st s v h =
      rw
        (
          entries-object_of (entry js r (parts_of bs) (calls_of bs)),
          sym (kept_blocks-parts_of bs h),
        )
        (read_entry js r (parts_of bs) (calls_of bs) st s v (calls_of-Parses bs h))

  pub read_messages-write_by :
      (r : Role) (c : Content Json) (rest : List Json) (st : Reading)
      → AreSendable r c
      → read_messages js (write_by js r c ++ rest) st
        ≡ read_messages js rest
            (record { messages = st.messages ++ back_by r c; prompt = gather_by r c st.prompt })
  unfolding read_messages read_fields read_other read_content merge_calls write_by lookup
  read_messages-write_by system c rest st h =
      ap
        (λ ms.
          read_messages js rest
            (record { messages = ms; prompt = some (join_prompt st.prompt (system_text c)) }))
        (sym (append-nil st.messages))
  read_messages-write_by tool (plain t) rest st h =
      ap (read_messages js rest) (twice "undefined" t st)
  read_messages-write_by tool (blocks bs) rest st h = read_messages-write_results bs rest st
  read_messages-write_by user (plain t) rest st h = refl
  read_messages-write_by assistant (plain t) rest st h = refl
  read_messages-write_by user (blocks bs) rest st h =
      ap (λ o. o >>= read_messages js rest) (read_sent user bs st refl h.0 h.1)
  read_messages-write_by assistant (blocks bs) rest st h =
      ap (λ o. o >>= read_messages js rest) (read_sent assistant bs st refl h.0 h.1)
