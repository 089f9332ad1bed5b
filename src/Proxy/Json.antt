-- ===== src/Proxy/Json.antt =====
-- JSON values as the provider transforms of src/proxy/transforms read and build them, and what they
-- use of the JavaScript runtime on such values. An object is a list of its entries.
pub mod Extras
use prism_pipe.Prelude.{
  ℕ, ◌≡◌, ◌≢◌, refl, ap, Bool, true, false, not, Option, none, some, String, List, [], ◌∷◌, ◌==◌,
  str_eq, Map, lookup, if◌then◌else◌, All, map,
}

mutual
  pub data Json : Type 0 where
    object : Entries → Json
    array : Items → Json
    str : String → Json
    num : ℕ → Json
    -- a number that is negative or not whole, by its text
    number : String → Json
    bool : Bool → Json
    null : Json

  pub data Entries : Type 0 where
    end : Entries
    pair : (key : String) (value : Json) (rest : Entries) → Entries

  pub data Items : Type 0 where
    nil : Items
    cons : (first : Json) (rest : Items) → Items

abbrev pub entries : Entries → Map Json
entries end = []
entries (pair key value rest) = (key, value) ∷ entries rest

abbrev pub items : Items → List Json
items nil = []
items (cons first rest) = first ∷ items rest

-- `[v, …]` and `{ k: v, … }`
abbrev pub array_of : List Json → Items
array_of [] = nil
array_of (v ∷ vs) = cons v (array_of vs)

abbrev pub object_of : Map Json → Entries
object_of [] = end
object_of ((k, v) ∷ m) = pair k v (object_of m)

pub items-array_of : (vs : List Json) → items (array_of vs) ≡ vs
items-array_of [] = refl
items-array_of (v ∷ vs) = ap (λ rest. v ∷ rest) (items-array_of vs)

pub entries-object_of : (m : Map Json) → entries (object_of m) ≡ m
entries-object_of [] = refl
entries-object_of ((k, v) ∷ m) = ap (λ rest. (k, v) ∷ rest) (entries-object_of m)

-- `String(v)` of a value that is no text, `JSON.stringify`, and `JSON.parse`, which may throw.
pub record Js : Type 0 where
  pub text_of : Json → String
  pub stringify : Json → String
  pub parse : String → Option Json

-- `String(v)`
abbrev pub string_of : Js → Option Json → String
string_of js none = "undefined"
string_of js (some (str s)) = s
string_of js (some null) = js.text_of null
string_of js (some (bool b)) = js.text_of (bool b)
string_of js (some (num n)) = js.text_of (num n)
string_of js (some (number t)) = js.text_of (number t)
string_of js (some (array vs)) = js.text_of (array vs)
string_of js (some (object ps)) = js.text_of (object ps)

-- `v ?? d`
abbrev pub or_default : Option Json → Json → Json
or_default none d = d
or_default (some null) d = d
or_default (some (bool b)) d = bool b
or_default (some (num n)) d = num n
or_default (some (number t)) d = number t
or_default (some (str s)) d = str s
or_default (some (array vs)) d = array vs
or_default (some (object ps)) d = object ps

abbrev pub is_truthy : Json → Bool
is_truthy null = false
is_truthy (bool b) = b
is_truthy (num n) = not (n == 0)
is_truthy (number t) = true
is_truthy (str s) = not (str_eq s "")
is_truthy (array vs) = true
is_truthy (object ps) = true

-- `v` where it is truthy
abbrev pub truthy : Option Json → Option Json
truthy none = none
truthy (some v) = if is_truthy v then some v else none

-- `v` where `v != null`
abbrev pub non_null : Option Json → Option Json
non_null none = none
non_null (some null) = none
non_null (some (bool b)) = some (bool b)
non_null (some (num n)) = some (num n)
non_null (some (number t)) = some (number t)
non_null (some (str s)) = some (str s)
non_null (some (array vs)) = some (array vs)
non_null (some (object ps)) = some (object ps)

-- Casts. `none` where the value is not of the type that the source gives it: the code throws a
-- TypeError there, or goes on with a value outside its types.
abbrev pub as_object : Json → Option (Map Json)
as_object (object ps) = some (entries ps)
as_object _ = none

abbrev pub as_array : Json → Option (List Json)
as_array (array vs) = some (items vs)
as_array _ = none

abbrev pub as_text : Option Json → Option String
as_text (some (str s)) = some s
as_text _ = none

-- `Number(v)` of a number
abbrev pub as_number : Json → Option Json
as_number (num n) = some (num n)
as_number (number t) = some (number t)
as_number _ = none

abbrev pub as_count : Json → Option ℕ
as_count (num n) = some n
as_count _ = none

infixl 5 ◌>>=◌
abbrev pub ◌>>=◌ {ℓ κ} : {A : Type ℓ} {B : Type κ} → Option A → (A → Option B) → Option B
none >>= f = none
some a >>= f = f a

-- `xs.map(f)` where `f` may throw
abbrev pub traverse {ℓ κ} : {A : Type ℓ} {B : Type κ} → (A → Option B) → List A → Option (List B)
traverse f [] = some []
traverse f (x ∷ xs) = do y ← f x; ys ← traverse f xs; some (y ∷ ys)

-- A field that is read only where it is there.
abbrev pub optional {ℓ κ} :
    {A : Type ℓ} {B : Type κ} → (A → Option B) → Option A → Option (Option B)
optional f none = some none
optional f (some a) = do b ← f a; some (some b)

pub traverse-map {ℓ κ ι} :
    {A : Type ℓ} {B : Type κ} {C : Type ι} (f : B → Option C) (g : A → B) (h : A → C)
    (P : A → Type 0)
    → ((a : A) → P a → f (g a) ≡ some (h a))
    → (xs : List A) → All P xs
    → traverse f (map g xs) ≡ some (map h xs)
traverse-map f g h P e [] p = refl
traverse-map f g h P e (x ∷ xs) p = rw (e x p.0, ◌>>=◌, traverse-map f g h P e xs p.1) refl
