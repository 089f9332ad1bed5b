-- ===== src/Compose/Template/Pieces.antt =====
-- What src/compose/template.ts makes of a template that is made of pieces.
use Prim.Native.Char.{Char, code}
use Prim.Native.String as S
use text.Mathlib.TextLemmas.{nil-append, cons-append, append_assoc, length-cons, length-append}
use prism_pipe.Prelude.{
  ◌+◌, ◌≡◌, refl, sym, ap, ◌∙◌, Bool, true, false, none, some, String, str_append, List, [], ◌∷◌,
  All, ◌==◌, if◌then◌else◌, arith, strip, take_until, non_empty, trim, strip-append, until-append,
  Bool-cases, inl, inr,
}
use prism_pipe.Compose.Chain.{TemplateContext}
use prism_pipe.Compose.Template.{is_brace, match_ref, replace, resolve_ref, resolve_template}

-- A text without an opening brace, or a reference.
pub data Piece : Type 0 where
  literal : String → Piece
  reference : String → Piece

abbrev pub no_open : String → Bool
no_open S.[] = true
no_open (S.◌∷◌ c s) = if 123 == code c then false else no_open s

-- A reference is not empty and has no closing brace.
abbrev pub IsPiece : Piece → Type 0
IsPiece (literal t) = no_open t ≡ true
IsPiece (reference r) = (take_until is_brace r ≡ r) × (non_empty r ≡ some r)

abbrev pub written : List Piece → String
written [] = ""
written (literal t ∷ ps) = str_append t (written ps)
written (reference r ∷ ps) = str_append "{{" (str_append r (str_append "}}" (written ps)))

abbrev pub resolved : (String → String) → List Piece → String
resolved f [] = ""
resolved f (literal t ∷ ps) = str_append t (resolved f ps)
resolved f (reference r ∷ ps) = str_append (f r) (resolved f ps)

abbrev opening : Char
opening = "{"

abbrev closing : Char
closing = "}"

match_ref-other : (c : Char) (s : String) → (123 == code c) ≡ false → match_ref (S.◌∷◌ c s) ≡ none
unfolding match_ref strip
match_ref-other c s e = rw (match_ref, e) refl

replace-literal :
    (f : String → String) (t s : String)
    → no_open t ≡ true
    → replace f 0 (str_append t s) ≡ str_append t (replace f 0 s)
unfolding replace
replace-literal f S.[] s e = rw (nil-append s, nil-append (replace f 0 s)) refl
replace-literal f (S.◌∷◌ c t) s e = elim (Bool-cases (123 == code c)) [
  | inl opens ↦ absurd (ground arith)
  | inr other ↦
      rw
        (
          cons-append c t s,
          cons-append c t (replace f 0 s),
          replace,
          match_ref-other c (str_append t s) other,
          replace-literal f t s (ground arith),
        )
        refl
]

replace-skip :
    (f : String → String) (t s : String) → replace f (S.count t) (str_append t s) ≡ replace f 0 s
unfolding replace
replace-skip f S.[] s = ap (replace f 0) (nil-append s)
replace-skip f (S.◌∷◌ c t) s = rw (length-cons c t, cons-append c t s) (replace-skip f t s)

match_ref-reference :
    (r w : String)
    → IsPiece (reference r)
    → match_ref (str_append "{{" (str_append r (str_append "}}" w))) ≡ some r
unfolding match_ref
match_ref-reference r w (whole, filled) =
    let split = cons-append closing "}" w in
    let u = until-append is_brace closing r (str_append "}" w) refl whole in
    rw
      (
        match_ref,
        strip-append "{{" (str_append r (str_append "}}" w)),
        split,
        u.1,
        sym split,
        strip-append "}}" w,
        split,
        u.0,
      )
      filled

replace-reference :
    (f : String → String) (r w : String)
    → IsPiece (reference r)
    → replace f 0 (str_append "{{" (str_append r (str_append "}}" w)))
      ≡ str_append (f r) (replace f 0 w)
unfolding replace
replace-reference f r w p =
    let rest = str_append r (str_append "}}" w) in
    let split = cons-append opening "{" rest in
    let found : match_ref (S.◌∷◌ opening (str_append "{" rest)) ≡ some r =
      rw (sym split) (match_ref-reference r w p) in
    let block = str_append "{" (str_append r "}}") in
    let same : str_append "{" rest ≡ str_append block w =
      sym (append_assoc "{" (str_append r "}}") w ∙ ap (str_append "{") (append_assoc r "}}" w)) in
    let size : S.count r + 3 ≡ S.count block =
      omega (arith, length-append "{" (str_append r "}}"), length-append r "}}") in
    rw (split, replace, found, size, same) (ap (str_append (f r)) (replace-skip f block w))

replace-pieces :
    (f : String → String) (ps : List Piece)
    → All IsPiece ps
    → replace f 0 (written ps) ≡ resolved f ps
unfolding replace
replace-pieces f [] h = refl
replace-pieces f (literal t ∷ ps) h =
    replace-literal f t (written ps) h.0 ∙ ap (str_append t) (replace-pieces f ps h.1)
replace-pieces f (reference r ∷ ps) h =
    replace-reference f r (written ps) h.0 ∙ ap (str_append (f r)) (replace-pieces f ps h.1)

-- A template that is written of texts without an opening brace and of references that are not empty
-- and have no closing brace is resolved piece by piece: the texts stay, and each reference becomes
-- what `resolveRef` gives for it without the space around it.
pub resolve_template-written :
    {J : Type 0} (ctx : TemplateContext J) (ps : List Piece)
    → All IsPiece ps
    → resolve_template (written ps) ctx ≡ resolved (λ ref. resolve_ref ctx (trim ref)) ps
unfolding resolve_template
resolve_template-written ctx ps h = replace-pieces (λ ref. resolve_ref ctx (trim ref)) ps h
