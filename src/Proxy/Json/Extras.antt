-- ===== src/Proxy/Json/Extras.antt =====
-- The fields of a request that a transform does not know: those that `toCanonical` collects into
-- `extras`, and `fromCanonical` spreads back into the request that it builds.
use mathlib.Core.List.{append_assoc, append-nil}
use prism_pipe.Prelude.{
  ◌≡◌, refl, sym, ◌∙◌, ap, true, false, not, ◌||◌, Option, none, some, String, List, [], ◌∷◌, ◌++◌,
  str_eq, Map, lookup, has, filter, includes, inherited, All, if◌then◌else◌, arith, eq_iff,
  Bool-cases, inl, inr,
}

module _ {V : Type 0} where
  -- `if (v) result[name] = v` for a name that is not there yet
  abbrev pub opt : String → Option V → Map V → Map V
  opt name none rest = rest
  opt name (some v) rest = (name, v) ∷ rest

  -- `for (const key of Object.keys(r)) if (!known.has(key)) extras[key] = r[key]`
  unfoldable pub unknown_entries : List String → Map V → Map V
  unknown_entries known m = filter (λ (e : String × V). not (includes known e.0)) m

  -- `for (const [key, value] of Object.entries(extras)) if (!(key in result)) result[key] = value`
  unfoldable pub spread : Map V → Map V → Map V
  spread [] result = result
  spread ((key, value) ∷ rest) result =
      spread rest
        (if includes inherited key || has key result then result else result ++ ((key, value) ∷ []))

  abbrev pub first : Option V → Option V → Option V
  first none o = o
  first (some v) o = some v

  -- A field that may stand in front of the others.
  pub lookup-opt :
      (key name : String) (v : Option V) (rest : Map V)
      → lookup key (opt name v rest)
        ≡ (if str_eq key name then first v (lookup key rest) else lookup key rest)
  unfolding lookup
  lookup-opt key name none rest = ground arith
  lookup-opt key name (some v) rest = refl

  -- The entries of an object whose keys are unknown, not inherited, and pairwise different.
  abbrev pub Extra : List String → Map V → Type 0
  Extra known [] = Unit
  Extra known (e ∷ es) =
      (includes known e.0 ≡ false)
      × (includes inherited e.0 ≡ false)
      × (has e.0 es ≡ false)
      × Extra known es

  abbrev pub Known : List String → Map V → Type 0
  Known known m = All (λ (e : String × V). includes known e.0 ≡ true) m

  pub Known-opt :
      (known : List String) (name : String) (v : Option V) (rest : Map V)
      → includes known name ≡ true
      → Known known rest
      → Known known (opt name v rest)
  Known-opt known name none rest e k = k
  Known-opt known name (some v) rest e k = (e, k)

  has-Known :
      (known : List String) (m : Map V) (key : String)
      → Known known m
      → includes known key ≡ false
      → has key m ≡ false
  unfolding has
  has-Known known [] key k e = refl
  has-Known known (x ∷ xs) key k e = elim (Bool-cases (str_eq key x.0)) [
    | inl same ↦
        let same' : key ≡ x.0 = (eq_iff key x.0).0 same in
        absurd (ground (arith, ap (includes known) same', k.0))
    | inr other ↦ rw other (has-Known known xs key k.1 e)
  ]

  has-append : (xs ys : Map V) (key : String) → has key (xs ++ ys) ≡ (has key xs || has key ys)
  unfolding has
  has-append [] ys key = refl
  has-append (x ∷ xs) ys key = ground (arith, has-append xs ys key)

  -- No key of the entries is in the object.
  abbrev Apart : Map V → Map V → Type 0
  Apart es m = All (λ (e : String × V). has e.0 m ≡ false) es

  Apart-Known : (known : List String) (es m : Map V) → Extra known es → Known known m → Apart es m
  Apart-Known known [] m x k = tt
  Apart-Known known (e ∷ es) m x k = (has-Known known m e.0 k x.0, Apart-Known known es m x.3 k)

  Apart-concat :
      (es m : Map V) (key : String) (v : V)
      → has key es ≡ false
      → Apart es m
      → Apart es (m ++ ((key, v) ∷ []))
  unfolding has
  Apart-concat [] m key v fresh a = tt
  Apart-concat (e ∷ es) m key v fresh a = (
    ground (arith, has-append m ((key, v) ∷ []) e.0, a.0, eq_iff key e.0, eq_iff e.0 key),
    Apart-concat es m key v (ground arith) a.1,
  )

  spread-Apart :
      (known : List String) (es m : Map V) → Extra known es → Apart es m → spread es m ≡ m ++ es
  unfolding spread
  spread-Apart known [] m x a = sym (append-nil m)
  spread-Apart known ((key, v) ∷ es) m x a =
      rw (x.1, a.0)
        (spread-Apart known es (m ++ ((key, v) ∷ [])) x.3 (Apart-concat es m key v x.2 a.1)
          ∙ append_assoc m ((key, v) ∷ []) es)

  unknown_entries-Known :
      (known : List String) (m es : Map V)
      → Known known m
      → unknown_entries known (m ++ es) ≡ unknown_entries known es
  unfolding unknown_entries
  unknown_entries-Known known [] es k = refl
  unknown_entries-Known known (x ∷ xs) es k = rw k.0 (unknown_entries-Known known xs es k.1)

  unknown_entries-Extra :
      (known : List String) (es : Map V) → Extra known es → unknown_entries known es ≡ es
  unfolding unknown_entries
  unknown_entries-Extra known [] x = refl
  unknown_entries-Extra known (e ∷ es) x =
      rw x.0 (ap (λ rest. e ∷ rest) (unknown_entries-Extra known es x.3))

  lookup-Extra :
      (known : List String) (key : String) (m es : Map V)
      → includes known key ≡ true
      → Extra known es
      → lookup key (m ++ es) ≡ lookup key m
  unfolding lookup
  lookup-Extra known key [] [] k x = refl
  lookup-Extra known key [] (e ∷ es) k x = elim (Bool-cases (str_eq key e.0)) [
    | inl same ↦
        let same' : key ≡ e.0 = (eq_iff key e.0).0 same in
        absurd (ground (arith, ap (includes known) same', x.0))
    | inr other ↦ rw other (lookup-Extra known key [] es k x.3)
  ]
  lookup-Extra known key (e ∷ m) es k x = ground (arith, lookup-Extra known key m es k x)

  -- An object of known fields into which extras are spread: its unknown fields are the extras again,
  -- and its known fields are as before.
  pub spread-Extra :
      (known : List String) (es m : Map V)
      → Extra known es
      → Known known m
      → (unknown_entries known (spread es m) ≡ es)
        × ((key : String) → includes known key ≡ true → lookup key (spread es m) ≡ lookup key m)
  spread-Extra known es m x k =
      let joined = spread-Apart known es m x (Apart-Known known es m x k) in
      (
        rw joined (unknown_entries-Known known m es k ∙ unknown_entries-Extra known es x),
        λ key e. rw joined (lookup-Extra known key m es e x),
      )
