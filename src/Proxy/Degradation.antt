-- ===== src/Proxy/Degradation.antt =====
-- src/proxy/feature-degradation.ts: `degradeFeatures`. `stringify` is `JSON.stringify` with an
-- indentation of two; warnings are left out. Blocks inside a tool result are not looked at, as in the
-- source.
pub mod Supported
mod Tests
use prism_pipe.Prelude.{
  ℕ, Bool, true, false, not, ◌||◌, Option, none, some, String, List, [], ◌∷◌, str_append,
  if◌then◌else◌, filter, any, map,
}
use prism_pipe.Core.Canonical.{
  ContentBlock, text, image, tool_use, tool_result, thinking, Content, plain, blocks, user,
  CanonicalMessage, CanonicalRequest, ToolDefinition, ProviderCapabilities,
}
use prism_pipe.Compose.Chain.{present}

abbrev pub is_image : {J : Type 0} → ContentBlock J → Bool
is_image (image s) = true
is_image (text t) = false
is_image (tool_use id name input) = false
is_image (tool_result id c e) = false
is_image (thinking t) = false

abbrev pub is_thinking : {J : Type 0} → ContentBlock J → Bool
is_thinking (thinking t) = true
is_thinking (text t) = false
is_thinking (image s) = false
is_thinking (tool_use id name input) = false
is_thinking (tool_result id c e) = false

-- `prompt ? prompt + '\n\n' + text : text`
abbrev pub add_prompt : Option String → String → Option String
add_prompt prompt addition = elim (present prompt) [
  | none ↦ some addition
  | some p ↦ some (str_append p (str_append "\n\n" addition))
]

abbrev pub thinking_instruction : String
thinking_instruction = "Think step by step and show your reasoning in your response."

-- `descriptions.join('\n\n')`
abbrev pub join_paragraphs : List String → String
join_paragraphs [] = ""
join_paragraphs (t ∷ []) = t
join_paragraphs (t ∷ u ∷ us) = str_append t (str_append "\n\n" (join_paragraphs (u ∷ us)))

abbrev pub with_frame : String → String
with_frame descriptions =
    str_append
      "# Available Tools\n\nYou have access to the following tools. To use a tool, respond with a JSON object containing \"tool_use\" field:\n\n"
      (str_append descriptions
        "\n\nExample tool use:\n```json\n{\n  \"tool_use\": {\n    \"name\": \"tool_name\",\n    \"input\": { \"param\": \"value\" }\n  }\n}\n```")

module _ {J : Type 0} where
  abbrev pub describe : (J → String) → ToolDefinition J → String
  describe stringify t = str_append "**" (
      str_append t.name (
        str_append "**: " (
          str_append t.description (
            str_append "\nInput schema:\n```json\n"
              (str_append (stringify t.input_schema) "\n```")))))

  abbrev pub tools_to_system_prompt : (J → String) → List (ToolDefinition J) → String
  tools_to_system_prompt stringify [] = ""
  tools_to_system_prompt stringify (t ∷ ts) =
      with_frame (join_paragraphs (map (describe stringify) (t ∷ ts)))

  abbrev pub strip_images : Content J → Content J
  strip_images (plain t) = plain t
  strip_images (blocks bs) =
      if any is_image bs then blocks (filter (λ b. not (is_image b)) bs) else blocks bs

  abbrev pub strip_thinking : Content J → Content J
  strip_thinking (plain t) = plain t
  strip_thinking (blocks bs) = blocks (filter (λ b. not (is_thinking b)) bs)

  abbrev pub has_thinking : Content J → Bool
  has_thinking (plain t) = false
  has_thinking (blocks bs) = any is_thinking bs

  abbrev pub any_thinking : List (CanonicalMessage J) → Bool
  any_thinking ms = any (λ (m : CanonicalMessage J). has_thinking m.content) ms

  abbrev pub on_content :
      (Content J → Content J) → List (CanonicalMessage J) → List (CanonicalMessage J)
  on_content f [] = []
  on_content f (m ∷ ms) = record m { content = f m.content } ∷ on_content f ms

  abbrev pub move_tools :
      (J → String) → List (ToolDefinition J) → CanonicalRequest J → CanonicalRequest J
  move_tools stringify ts d = record d {
    system_prompt = add_prompt d.system_prompt (tools_to_system_prompt stringify ts);
    tools = none;
  }

  -- The four parts of `degradeFeatures`: `req` is the request as it came, `d` the one in the making.
  abbrev pub degrade_tools :
      (J → String)
      → ProviderCapabilities
      → CanonicalRequest J
      → CanonicalRequest J
      → CanonicalRequest J
  degrade_tools stringify caps req d = elim req.tools [
    | none ↦ d
    | some ts ↦ if caps.supports_tools then d else move_tools stringify ts d
  ]

  abbrev pub degrade_vision : ProviderCapabilities → CanonicalRequest J → CanonicalRequest J
  degrade_vision caps d =
      if caps.supports_vision then d else record d { messages = on_content strip_images d.messages }

  abbrev pub degrade_thinking :
      ProviderCapabilities → CanonicalRequest J → CanonicalRequest J → CanonicalRequest J
  degrade_thinking caps req d =
      if caps.supports_thinking || not (any_thinking req.messages) then d else record d {
        system_prompt = add_prompt d.system_prompt thinking_instruction;
        messages = on_content strip_thinking d.messages;
      }

  abbrev pub degrade_system_prompt :
      ProviderCapabilities → CanonicalRequest J → CanonicalRequest J → CanonicalRequest J
  degrade_system_prompt caps req d = elim (present req.system_prompt) [
    | none ↦ d
    | some prompt ↦ if caps.supports_system_prompt then d else record d {
      messages =
          record { role = user; content = plain (str_append "System instructions: " prompt) }
          ∷ d.messages;
      system_prompt = none;
    }
  ]

  unfoldable pub degrade_features :
      (J → String) → ProviderCapabilities → CanonicalRequest J → CanonicalRequest J
  degrade_features stringify caps req =
      degrade_system_prompt caps req
        (degrade_thinking caps req (degrade_vision caps (degrade_tools stringify caps req req)))
