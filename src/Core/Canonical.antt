-- ===== src/Core/Canonical.antt =====
-- src/core/types.ts: the provider-independent requests and responses. `J` stands for the values of
-- unknown shape and the fractional numbers, which this code only copies.
use prism_pipe.Prelude.{ℕ, Bool, Option, String, List}

pub data ImageSource : Type 0 where
  base64 : (media_type : String) (bytes : String) → ImageSource
  url : String → ImageSource

mutual
  pub data ContentBlock (J : Type 0) : Type 0 where
    text : String → ContentBlock J
    image : ImageSource → ContentBlock J
    tool_use : (id : String) (name : String) (input : J) → ContentBlock J
    tool_result :
        (tool_use_id : String) (content : ResultContent J) (is_error : Option Bool) → ContentBlock J
    thinking : String → ContentBlock J

  pub data ResultContent (J : Type 0) : Type 0 where
    plain : String → ResultContent J
    nil : ResultContent J
    cons : ContentBlock J → ResultContent J → ResultContent J

pub data Role : Type 0 where
  user assistant system tool : Role

-- `string | ContentBlock[]`
pub data Content (J : Type 0) : Type 0 where
  plain : String → Content J
  blocks : List (ContentBlock J) → Content J

pub record CanonicalMessage (J : Type 0) : Type 0 where
  pub role : Role
  pub content : Content J

pub record ToolDefinition (J : Type 0) : Type 0 where
  pub name : String
  pub description : String
  pub input_schema : J

pub record CanonicalRequest (J : Type 0) : Type 0 where
  pub model : String
  pub messages : List (CanonicalMessage J)
  pub system_prompt : Option String
  pub tools : Option (List (ToolDefinition J))
  pub temperature : Option J
  pub max_tokens : Option J
  pub top_p : Option J
  pub stop_sequences : Option (List String)
  pub stream : Option Bool
  pub provider_extensions : Option J
  pub extras : Option J

pub record UsageInfo : Type 0 where
  pub input_tokens : ℕ
  pub output_tokens : ℕ
  pub total_tokens : ℕ

pub data StopReason : Type 0 where
  end max_tokens tool_use stop_sequence content_filter unknown : StopReason

pub record CanonicalResponse (J : Type 0) : Type 0 where
  pub id : String
  pub model : String
  pub content : List (ContentBlock J)
  pub stop_reason : StopReason
  pub usage : UsageInfo
  pub provider_extensions : Option J

pub record ProviderCapabilities : Type 0 where
  pub supports_tools : Bool
  pub supports_vision : Bool
  pub supports_streaming : Bool
  pub supports_thinking : Bool
  pub supports_system_prompt : Bool
  pub max_context_tokens : Option ℕ

pub data ChunkType : Type 0 where
  content_delta tool_use_delta usage done error : ChunkType

pub record Delta : Type 0 where
  pub text : Option String
  pub tool_use_id : Option String
  pub tool_name : Option String
  pub input_json : Option String

pub record CanonicalStreamChunk : Type 0 where
  pub type : ChunkType
  pub delta : Option Delta
  pub usage : Option UsageInfo
  -- the message and the code
  pub error : Option (String × Option String)
