-- ===== src/Compose/Template.antt =====
-- src/compose/template.ts: the references `{{…}}` in the input of a composition step.
pub mod Pieces
mod Tests
use Prim.Native.Char.{Char, code}
use Prim.Native.String as S
use prism_pipe.Prelude.{
  ℕ, zero, suc, ◌+◌, Bool, true, false, Option, none, some, String, str_append, str_eq, List, [],
  ◌∷◌, lookup, ◌==◌, if◌then◌else◌, get_or, strip, take_until, drop_until, non_empty, trim,
  trim_start, trim_end,
}
use prism_pipe.Core.Canonical.{
  Content, plain, blocks, Role, user, assistant, system, tool, CanonicalMessage, CanonicalRequest,
}
use prism_pipe.Compose.Chain.{
  TemplateContext, StepResult, Status, success, skipped, defaulted, error, extract_text,
}

abbrev pub text_of : {J : Type 0} → Content J → String
text_of (plain t) = t
text_of (blocks bs) = extract_text bs

abbrev pub is_user : Role → Bool
is_user user = true
is_user assistant = false
is_user system = false
is_user tool = false

-- The loop of `getLastUserMessage`, which goes from the last message to the first.
unfoldable pub last_user_text : {J : Type 0} → List (CanonicalMessage J) → Option String
last_user_text [] = none
last_user_text (m ∷ ms) = elim (last_user_text ms) [
  | some t ↦ some t
  | none ↦ if is_user m.role then some (text_of m.content) else none
]

abbrev pub get_last_user_message : {J : Type 0} → CanonicalRequest J → String
get_last_user_message req = get_or (last_user_text req.messages) ""

abbrev pub put_first : Char → List String → List String
put_first c [] = S.◌∷◌ c S.[] ∷ []
put_first c (part ∷ parts) = S.◌∷◌ c part ∷ parts

-- `path.split('.')`
unfoldable pub split_dots : String → List String
split_dots S.[] = "" ∷ []
split_dots (S.◌∷◌ c s) =
    let parts = split_dots s in if code c == 46 then "" ∷ parts else put_first c parts

-- `parts.join('.')`
abbrev pub join_dots : List String → String
join_dots [] = ""
join_dots (p ∷ []) = p
join_dots (p ∷ q ∷ ps) = str_append p (str_append "." (join_dots (q ∷ ps)))

abbrev pub braced : String → String
braced t = str_append "{{" (str_append t "}}")

abbrev pub status_text : Status → String
status_text success = "success"
status_text skipped = "skipped"
status_text defaulted = "defaulted"
status_text error = "error"

abbrev pub step_field : Option StepResult → String → String → String
step_field none name field = braced (str_append "steps." (str_append name (str_append "." field)))
step_field (some step) name field =
    if str_eq field "content"
    then step.content
    else if str_eq field "provider"
    then step.provider
    else if str_eq field "name"
    then step.name
    else if str_eq field "status"
    then status_text step.status
    else ""

abbrev pub original_field : {J : Type 0} → CanonicalRequest J → String → String
original_field req field =
    if str_eq field "lastUserMessage"
    then get_last_user_message req
    else if str_eq field "systemPrompt"
    then get_or req.system_prompt ""
    else if str_eq field "model"
    then req.model
    else ""

abbrev pub previous_field : Option StepResult → String → String
previous_field none field = ""
previous_field (some step) field =
    if str_eq field "content"
    then step.content
    else if str_eq field "provider"
    then step.provider
    else if str_eq field "name"
    then step.name
    else ""

module _ {J : Type 0} (ctx : TemplateContext J) where
  abbrev pub other_ref : String → String → List String → String
  other_ref path first rest =
      if str_eq first "original"
      then original_field ctx.original (join_dots rest)
      else if str_eq first "previous"
      then previous_field ctx.previous (join_dots rest)
      else braced path

  -- By the parts of the path; `steps` takes a name and at least one part more.
  unfoldable pub resolve_parts : String → List String → String
  unfolding last_user_text
  resolve_parts path [] = braced path
  resolve_parts path (first ∷ []) = other_ref path first []
  resolve_parts path (first ∷ name ∷ []) = other_ref path first (name ∷ [])
  resolve_parts path (first ∷ name ∷ field ∷ fields) =
      if str_eq first "steps"
      then step_field (lookup name ctx.steps) name (join_dots (field ∷ fields))
      else other_ref path first (name ∷ field ∷ fields)

  unfoldable pub resolve_ref : String → String
  unfolding resolve_parts split_dots
  resolve_ref path = resolve_parts path (split_dots path)

abbrev pub is_brace : Char → Bool
is_brace c = code c == 125

-- The match of `/\{\{([^}]+)\}\}/` where it begins the text: its group.
unfoldable pub match_ref : String → Option String
match_ref s = elim (strip "{{" s) [
  | none ↦ none
  | some rest ↦ elim (strip "}}" (drop_until is_brace rest)) [
    | none ↦ none
    | some tail ↦ non_empty (take_until is_brace rest)
  ]
]

-- `template.replace(re, f)` from a position on, where as many characters belong to the match before.
unfoldable pub replace : (String → String) → ℕ → String → String
replace f left S.[] = S.[]
replace f zero (S.◌∷◌ c s) = elim (match_ref (S.◌∷◌ c s)) [
  | none ↦ S.◌∷◌ c (replace f zero s)
  | some ref ↦ str_append (f ref) (replace f (S.count ref + 3) s)
]
replace f (suc n) (S.◌∷◌ c s) = replace f n s

unfoldable pub resolve_template : {J : Type 0} → String → TemplateContext J → String
unfolding replace match_ref resolve_ref
resolve_template template ctx = replace (λ ref. resolve_ref ctx (trim ref)) 0 template
