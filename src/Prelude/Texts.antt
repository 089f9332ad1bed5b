-- ===== src/Prelude/Texts.antt =====
-- Texts by their characters: prefixes, the part up to a character, and `trim`.
use Prim.Native.Char.{Char, code}
use Prim.Native.Nat.{ℕ}
use Prim.Native.String as S
use Prim.Native.String.{String, ◌++◌}
use mathlib.Core.Path.{◌≡◌, refl, ap}
use mathlib.Core.Logic.{inl, inr}
use mathlib.Core.Bool.{Bool, true, ◌&&◌, ◌||◌}
use mathlib.Core.Option.{Option, none, some}
use mathlib.Core.List.{[], ◌∷◌}
use native.Mathlib.Omega.{arith}
use text.Mathlib.TextLemmas.{nil-append, cons-append, nil≢cons}
use prism_pipe.Prelude.Tests.{if◌then◌else◌, Bool-cases, ◌==◌, leb}
use prism_pipe.Prelude.Lists.{any}

-- The rest of a text behind a prefix.
unfoldable pub strip : String → String → Option String
strip S.[] s = some s
strip (S.◌∷◌ p ps) S.[] = none
strip (S.◌∷◌ p ps) (S.◌∷◌ c s) = let rest = strip ps s in if code p == code c then rest else none

-- A text up to the first character that ends it, and the rest.
unfoldable pub take_until : (Char → Bool) → String → String
take_until ends S.[] = S.[]
take_until ends (S.◌∷◌ c s) = let rest = take_until ends s in if ends c then S.[] else S.◌∷◌ c rest

unfoldable pub drop_until : (Char → Bool) → String → String
drop_until ends S.[] = S.[]
drop_until ends (S.◌∷◌ c s) = let rest = drop_until ends s in if ends c then S.◌∷◌ c s else rest

abbrev pub non_empty : String → Option String
non_empty S.[] = none
non_empty (S.◌∷◌ c s) = some (S.◌∷◌ c s)

-- White space and line ends.
abbrev pub is_space : Char → Bool
is_space c =
    any (λ n. code c == n)
      (9 ∷ 10 ∷ 11 ∷ 12 ∷ 13 ∷ 32 ∷ 160 ∷ 5760 ∷ 8232 ∷ 8233 ∷ 8239 ∷ 8287 ∷ 12288 ∷ 65279 ∷ [])
    || (leb 8192 (code c) && leb (code c) 8202)

abbrev pub put_space : Char → String → String
put_space c S.[] = if is_space c then S.[] else S.◌∷◌ c S.[]
put_space c (S.◌∷◌ d s) = S.◌∷◌ c (S.◌∷◌ d s)

unfoldable pub trim_end : String → String
trim_end S.[] = S.[]
trim_end (S.◌∷◌ c s) = put_space c (trim_end s)

unfoldable pub trim_start : String → String
trim_start S.[] = S.[]
trim_start (S.◌∷◌ c s) = let rest = trim_start s in if is_space c then rest else S.◌∷◌ c s

-- `s.trim()`
abbrev pub trim : String → String
trim s = trim_end (trim_start s)

eq_self : (n : ℕ) → (n == n) ≡ true
eq_self n = ground arith

pub strip-append : (p s : String) → strip p (p ++ s) ≡ some s
unfolding strip
strip-append S.[] s = ap (λ (t : String). some t) (nil-append s)
strip-append (S.◌∷◌ c p) s = rw (cons-append c p s, eq_self (code c)) (strip-append p s)

tail_text : String → String
tail_text S.[] = S.[]
tail_text (S.◌∷◌ c s) = s

-- A text in which no character ends it, in front of one that does.
pub until-append :
    (ends : Char → Bool) (d : Char) (m t : String)
    → ends d ≡ true
    → take_until ends m ≡ m
    → (take_until ends (m ++ (S.◌∷◌ d t)) ≡ m) × (drop_until ends (m ++ (S.◌∷◌ d t)) ≡ S.◌∷◌ d t)
unfolding take_until drop_until tail_text
until-append ends d S.[] t f e = rw (nil-append (S.◌∷◌ d t), f) (refl, refl)
until-append ends d (S.◌∷◌ c m) t f e = elim (Bool-cases (ends c)) [
  | inl stops ↦ absurd (nil≢cons (rw stops at e))
  | inr goes ↦
      let rest = until-append ends d m t f (ap tail_text (rw goes at e)) in
      rw (cons-append c m (S.◌∷◌ d t), goes, rest.0, rest.1) (refl, refl)
]
