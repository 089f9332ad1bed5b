-- ===== src/Proxy/Raw.antt =====
-- Canonical values as the plain objects that they are: what `JSON.stringify` is given of them, and
-- what a transform gets that puts one into a request as it is.
use prism_pipe.Prelude.{Bool, Option, none, some, String, str_eq, if◌then◌else◌}
use prism_pipe.Core.Canonical.{
  ImageSource, base64, url, ContentBlock, text, image, tool_use, tool_result, thinking,
  ResultContent, Role, user, assistant, system, tool,
}
use prism_pipe.Proxy.Json.{Json, str, bool, array, object, Items, nil, cons, Entries, end, pair}

abbrev pub raw_source : ImageSource → Json
raw_source (base64 media_type bytes) =
    object
      (pair "type" (str "base64") (pair "mediaType" (str media_type) (pair "data" (str bytes) end)))
raw_source (url u) = object (pair "type" (str "url") (pair "url" (str u) end))

abbrev pub raw_error : Option Bool → Entries
raw_error none = end
raw_error (some b) = pair "isError" (bool b) end

unfoldable mutual
  pub raw_block : ContentBlock Json → Json
  raw_block (text t) = object (pair "type" (str "text") (pair "text" (str t) end))
  raw_block (image s) = object (pair "type" (str "image") (pair "source" (raw_source s) end))
  raw_block (tool_use id name input) = object (
      pair "type" (str "tool_use")
        (pair "id" (str id) (pair "name" (str name) (pair "input" input end))))
  raw_block (tool_result id content e) = object (
      pair "type" (str "tool_result")
        (pair "toolUseId" (str id) (pair "content" (raw_content content) (raw_error e))))
  raw_block (thinking t) = object (pair "type" (str "thinking") (pair "text" (str t) end))

  -- `string | ContentBlock[]`
  pub raw_content : ResultContent Json → Json
  raw_content (ResultContent.plain t) = str t
  raw_content ResultContent.nil = array nil
  raw_content (ResultContent.cons b bs) = array (cons (raw_block b) (raw_items bs))

  pub raw_items : ResultContent Json → Items
  raw_items (ResultContent.plain t) = nil
  raw_items ResultContent.nil = nil
  raw_items (ResultContent.cons b bs) = cons (raw_block b) (raw_items bs)

abbrev pub role_text : Role → String
role_text user = "user"
role_text assistant = "assistant"
role_text system = "system"
role_text tool = "tool"

-- `role as CanonicalMessage['role']`
abbrev pub role_of : String → Option Role
role_of s =
    if str_eq s "user"
    then some user
    else if str_eq s "assistant"
    then some assistant
    else if str_eq s "system"
    then some system
    else if str_eq s "tool"
    then some tool
    else none
