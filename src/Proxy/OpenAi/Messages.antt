-- ===== src/Proxy/OpenAi/Messages.antt =====
-- What of the messages comes back through src/proxy/transforms/openai.ts.
use prism_pipe.Prelude.{
  ◌≡◌, refl, ap, Bool, true, false, some, List, [], ◌∷◌, ◌++◌, map, All, lookup, arith,
}
use prism_pipe.Core.Canonical.{
  ContentBlock, text, image, tool_use, Content, plain, blocks, Role, user, assistant, system, tool,
  CanonicalMessage,
}
use prism_pipe.Proxy.Json.{Json, Js, array, array_of, ◌>>=◌, traverse, items-array_of, traverse-map}
use prism_pipe.Proxy.Json.Extras.{lookup-opt}
use prism_pipe.Proxy.Fields.Trip.{units, first-none}
use prism_pipe.Proxy.OpenAi.DataUrl.{image_of}
use prism_pipe.Proxy.OpenAi.Reading.{
  Reading, blocks_of, merge, read_part, read_content, read_call, merge_calls, read_other,
  read_fields,
}
use prism_pipe.Proxy.OpenAi.Sending.{
  Part, text_part, url_part, Call, write_part, write_parts, content_or, write_call, write_calls,
  entry,
}

abbrev pub part_block : Part → ContentBlock Json
part_block (text_part t) = text t
part_block (url_part u) = image (image_of u)

abbrev pub call_block : Call → ContentBlock Json
call_block c = tool_use c.id c.name c.input

-- One text alone comes back as a text.
abbrev pub held : List (ContentBlock Json) → Content Json
held [] = plain ""
held (text t ∷ []) = plain t
held bs = blocks bs

abbrev pub with_calls : List Call → Content Json → Content Json
with_calls [] c = c
with_calls (k ∷ ks) c = blocks (blocks_of c ++ map call_block (k ∷ ks))

abbrev pub sends_entry : Role → Bool
sends_entry user = true
sends_entry assistant = true
sends_entry system = false
sends_entry tool = false

-- The content of a message that is sent with these parts and calls, when it is read.
abbrev pub back_entry : Role → List (ContentBlock Json) → List Call → Content Json
back_entry user bs cs = held bs
back_entry assistant bs cs = with_calls cs (held bs)
back_entry system bs cs = held bs
back_entry tool bs cs = held bs

-- Tool calls stand beside a text or an image.
abbrev pub is_visible : List Part → List Call → Bool
is_visible [] [] = true
is_visible [] (c ∷ cs) = false
is_visible (p ∷ ps) cs = true

module _ (js : Js) where
  -- The arguments of a call are read as they were written.
  abbrev pub Parses : Call → Type 0
  Parses c = js.parse (js.stringify c.input) ≡ some c.input

  read_part-write_part : (p : Part) → read_part js (write_part p) ≡ some (part_block p)
  unfolding read_part lookup
  read_part-write_part (text_part t) = refl
  read_part-write_part (url_part u) = refl

  read_parts :
      (ps : List Part) → traverse (read_part js) (map write_part ps) ≡ some (map part_block ps)
  read_parts ps =
      traverse-map (read_part js) write_part part_block (λ p. Unit) (λ p h. read_part-write_part p)
        ps (units ps)

  read_content-many :
      (r : Role) (ps : List Part) (ms : List (CanonicalMessage Json))
      → read_content js (some (array (array_of (map write_part ps)))) (some r) ms
        ≡ some (ms ++ (record { role = r; content = blocks (map part_block ps) } ∷ []))
  unfolding read_content
  read_content-many r ps ms = rw (items-array_of (map write_part ps), read_parts ps) refl

  read_content-write_parts :
      (r : Role) (ps : List Part) (cs : List Call) (ms : List (CanonicalMessage Json))
      → is_visible ps cs ≡ true
      → read_content js (content_or (write_parts ps) (write_calls js cs)) (some r) ms
        ≡ some (ms ++ (record { role = r; content = held (map part_block ps) } ∷ []))
  unfolding read_content read_part lookup
  read_content-write_parts r [] [] ms e = refl
  read_content-write_parts r [] (c ∷ cs) ms e = absurd (ground arith)
  read_content-write_parts r (text_part t ∷ []) cs ms e = refl
  read_content-write_parts r (url_part u ∷ []) cs ms e = refl
  read_content-write_parts r (text_part t ∷ q ∷ ps) cs ms e =
      read_content-many r (text_part t ∷ q ∷ ps) ms
  read_content-write_parts r (url_part u ∷ q ∷ ps) cs ms e =
      read_content-many r (url_part u ∷ q ∷ ps) ms

  merge-append :
      (calls : List (ContentBlock Json)) (ms : List (CanonicalMessage Json))
      (m : CanonicalMessage Json)
      → merge calls (ms ++ (m ∷ [])) ≡ ms ++ merge calls (m ∷ [])
  unfolding merge
  merge-append calls [] m = refl
  merge-append calls (a ∷ []) m = refl
  merge-append calls (a ∷ b ∷ ms) m = ap (λ rest. a ∷ rest) (merge-append calls (b ∷ ms) m)

  read_calls :
      (cs : List Call)
      → All Parses cs
      → traverse (read_call js) (map (write_call js) cs) ≡ some (map call_block cs)
  unfolding read_call lookup
  read_calls cs p =
      traverse-map (read_call js) (write_call js) call_block Parses (λ c h. rw (h, ◌>>=◌) refl) cs p

  merge_calls-write_call :
      (cs : List Call) (ms : List (CanonicalMessage Json)) (m : CanonicalMessage Json)
      → All Parses cs
      → merge_calls js true (some (array (array_of (map (write_call js) cs)))) (ms ++ (m ∷ []))
        ≡ some (ms ++ merge (map call_block cs) (m ∷ []))
  unfolding merge_calls
  merge_calls-write_call cs ms m p =
      rw
        (
          items-array_of (map (write_call js) cs),
          read_calls cs p,
          ◌>>=◌,
          merge-append (map call_block cs) ms m,
        )
        refl

  merge_calls-write_calls :
      (bs : List (ContentBlock Json)) (cs : List Call) (ms : List (CanonicalMessage Json))
      → All Parses cs
      → merge_calls js true
          (write_calls js cs)
          (ms ++ (record { role = assistant; content = held bs } ∷ []))
        ≡ some (ms ++ (record { role = assistant; content = with_calls cs (held bs) } ∷ []))
  unfolding merge_calls merge
  merge_calls-write_calls bs [] ms p = refl
  merge_calls-write_calls bs (c ∷ cs) ms p =
      merge_calls-write_call (c ∷ cs) ms (record { role = assistant; content = held bs }) p

  entry_content :
      (r : Role) (ps : List Part) (cs : List Call)
      → lookup "content" (entry js r ps cs) ≡ content_or (write_parts ps) (write_calls js cs)
  unfolding lookup
  entry_content r ps cs = simp (lookup-opt, first-none)

  entry_calls :
      (r : Role) (ps : List Part) (cs : List Call)
      → lookup "tool_calls" (entry js r ps cs) ≡ write_calls js cs
  unfolding lookup
  entry_calls r ps cs = simp (lookup-opt, first-none)

  pub read_entry :
      (r : Role) (ps : List Part) (cs : List Call) (st : Reading)
      → sends_entry r ≡ true
      → is_visible ps cs ≡ true
      → All Parses cs
      → read_fields js (entry js r ps cs) st
        ≡ some (record st {
          messages =
              st.messages
              ++ (record { role = r; content = back_entry r (map part_block ps) cs } ∷ []);
        })
  unfolding read_fields read_other lookup
  read_entry user ps cs st s v p =
      rw (entry_content user ps cs, read_content-write_parts user ps cs st.messages v, ◌>>=◌) refl
  read_entry assistant ps cs st s v p =
      rw
        (
          entry_content assistant ps cs,
          entry_calls assistant ps cs,
          read_content-write_parts assistant ps cs st.messages v,
          ◌>>=◌,
          merge_calls-write_calls (map part_block ps) cs st.messages p,
        )
        refl
  read_entry system ps cs st s v p = absurd (ground arith)
  read_entry tool ps cs st s v p = absurd (ground arith)
