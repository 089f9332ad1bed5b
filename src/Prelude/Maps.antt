-- ===== src/Prelude/Maps.antt =====
-- The `Map<string, V>` of JavaScript as an association list in insertion order: `set` on a key that
-- is present writes in place, on a new key it appends; `delete` removes the entry.
use Prim.Native.String.{String}
use mathlib.Core.Path.{◌≡◌, refl}
use mathlib.Core.Logic.{inl, inr}
use mathlib.Core.Bool.{Bool, true, false}
use mathlib.Core.Option.{Option, none, some}
use mathlib.Core.List.{List, [], ◌∷◌}
use native.Mathlib.Omega.{arith}
use text.Mathlib.Text.{◌==◌ as str_eq}
use text.Mathlib.TextEquality.{eq_iff}
use prism_pipe.Prelude.Tests.{if◌then◌else◌, Bool-cases}

abbrev pub Map {ℓ} : Type ℓ → Type ℓ
Map V = List (String × V)

module _ {ℓ} {V : Type ℓ} where
  -- `m.get(key)`
  unfoldable pub lookup : String → Map V → Option V
  lookup key [] = none
  lookup key (entry ∷ rest) = if str_eq key entry.0 then some entry.1 else lookup key rest

  -- `m.set(key, value)`
  unfoldable pub insert : String → V → Map V → Map V
  insert key value [] = (key, value) ∷ []
  insert key value (entry ∷ rest) =
      if str_eq key entry.0 then (entry.0, value) ∷ rest else entry ∷ insert key value rest

  -- `m.delete(key)`
  unfoldable pub delete : String → Map V → Map V
  delete key [] = []
  delete key (entry ∷ rest) =
      let kept = delete key rest in if str_eq key entry.0 then kept else entry ∷ kept

  -- `m.has(key)`
  unfoldable pub has : String → Map V → Bool
  has key [] = false
  has key (entry ∷ rest) = if str_eq key entry.0 then true else has key rest

  unfoldable pub keys : Map V → List String
  keys [] = []
  keys (entry ∷ rest) = entry.0 ∷ keys rest

  unfoldable pub values : Map V → List V
  values [] = []
  values (entry ∷ rest) = entry.1 ∷ values rest

  pub lookup-insert :
      (m : Map V) (written read : String) (value : V)
      → lookup read (insert written value m)
        ≡ (if str_eq read written then some value else lookup read m)
  unfolding lookup insert
  lookup-insert [] written read value = refl
  lookup-insert (entry ∷ rest) written read value = ground (
    arith,
    lookup-insert rest written read value,
    eq_iff read written,
    eq_iff written entry.0,
    eq_iff read entry.0,
  )

  pub lookup-delete :
      (m : Map V) (gone read : String)
      → lookup read (delete gone m) ≡ (if str_eq read gone then none else lookup read m)
  unfolding lookup delete
  lookup-delete [] gone read = ground arith
  lookup-delete (entry ∷ rest) gone read = ground (
    arith,
    lookup-delete rest gone read,
    eq_iff read gone,
    eq_iff gone entry.0,
    eq_iff read entry.0,
  )

  pub has-eq : (m : Map V) (key : String) → has key m ≡ true → (v : V) × (lookup key m ≡ some v)
  unfolding lookup has
  has-eq [] key e = absurd (ground arith)
  has-eq (entry ∷ rest) key e = elim (Bool-cases (str_eq key entry.0)) [
    | inl here ↦ (entry.1, ground arith)
    | inr there ↦ rw there (has-eq rest key (ground arith))
  ]

  pub has-lookup : (m : Map V) (key : String) → has key m ≡ false → lookup key m ≡ none
  unfolding lookup has
  has-lookup [] key e = refl
  has-lookup (entry ∷ rest) key e = ground (arith, has-lookup rest key)
