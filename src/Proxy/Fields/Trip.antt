-- ===== src/Proxy/Fields/Trip.antt =====
-- What comes back of the fields that the transforms read and write alike.
use prism_pipe.Prelude.{
  ◌≡◌, ◌≢◌, refl, ap, Bool, true, false, Option, none, some, String, List, [], ◌∷◌, map, All, arith,
}
use prism_pipe.Core.Canonical.{ToolDefinition, Role, user, assistant, system, tool}
use prism_pipe.Compose.Chain.{present}
use prism_pipe.Proxy.Json.{
  Json, null, bool, num, number, str, array, object, Js, or_default, non_null, truthy, as_number,
  as_text, optional, items-array_of, traverse-map,
}
use prism_pipe.Proxy.Json.Extras.{first}
use prism_pipe.Proxy.Raw.{role_text, role_of}
use prism_pipe.Proxy.Fields.{
  read_texts, read_system, is_set, write_texts, write_stream, write_system,
}

abbrev pub Numeric : Option Json → Type 0
Numeric none = Unit
Numeric (some v) = as_number v ≡ some v

-- A tool has a schema.
abbrev pub AllTools : Option (List (ToolDefinition Json)) → Type 0
AllTools none = Unit
AllTools (some ts) = All (λ (t : ToolDefinition Json). t.input_schema ≢ null) ts

pub or_default-non_null : (v d : Json) → v ≢ null → or_default (some v) d ≡ v
or_default-non_null null d n = absurd (n refl)
or_default-non_null (bool b) d n = refl
or_default-non_null (num k) d n = refl
or_default-non_null (number t) d n = refl
or_default-non_null (str s) d n = refl
or_default-non_null (array vs) d n = refl
or_default-non_null (object ps) d n = refl

pub role_of-role_text : (r : Role) → role_of (role_text r) ≡ some r
role_of-role_text user = refl
role_of-role_text assistant = refl
role_of-role_text system = refl
role_of-role_text tool = refl

pub map-id : {A : Type 0} (xs : List A) → map (λ x. x) xs ≡ xs
map-id [] = refl
map-id (x ∷ xs) = ap (λ rest. x ∷ rest) (map-id xs)

pub units : {A : Type 0} (xs : List A) → All (λ x. Unit {0}) xs
units [] = tt
units (x ∷ xs) = (tt, units xs)

pub read_texts-write_texts :
    (ts : Option (List String)) → optional read_texts (truthy (write_texts ts)) ≡ some ts
read_texts-write_texts none = refl
read_texts-write_texts (some ts) =
    rw
      (
        items-array_of (map (λ (t : String). str t) ts),
        traverse-map (λ t. as_text (some t)) (λ (t : String). str t) (λ t. t) (λ t. Unit)
            (λ t h. refl) ts (units ts),
      )
      (ap (λ xs. some (some xs)) (map-id ts))

pub as_number-Numeric : (v : Option Json) → Numeric v → optional as_number (non_null v) ≡ some v
as_number-Numeric none n = refl
as_number-Numeric (some null) n = absurd (ground arith)
as_number-Numeric (some (bool b)) n = absurd (ground arith)
as_number-Numeric (some (num k)) n = refl
as_number-Numeric (some (number t)) n = refl
as_number-Numeric (some (str s)) n = absurd (ground arith)
as_number-Numeric (some (array vs)) n = absurd (ground arith)
as_number-Numeric (some (object ps)) n = absurd (ground arith)

pub first-none : {A : Type 0} (o : Option A) → first o none ≡ o
first-none none = refl
first-none (some a) = refl

abbrev pub back_stream : Option Bool → Option Bool
back_stream (some true) = some true
back_stream (some false) = none
back_stream none = none

pub is_set-write_stream : (b : Option Bool) → is_set (truthy (write_stream b)) ≡ back_stream b
is_set-write_stream none = refl
is_set-write_stream (some true) = refl
is_set-write_stream (some false) = refl

pub read_system-write_system :
    (js : Js) (prompt : Option String) → read_system js (write_system prompt) ≡ present prompt
read_system-write_system js none = refl
read_system-write_system js (some t) = ground arith
