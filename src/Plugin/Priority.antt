-- ===== src/Plugin/Priority.antt =====
-- The order in which `allMiddleware` of src/plugin/registry.ts returns the middleware.
use prism_pipe.Prelude.{
  ℕ, ◌≤◌, ◌≡◌, refl, List, [], ◌∷◌, leb, ◌==◌, filter, All, map, arith, Bool-cases, inl, inr,
  values,
}
use prism_pipe.Plugin.{
  NamedMiddleware, RegistryEntry, PluginRegistry, priority_of, place, sort, all_middleware,
}

module _ {X : Type 0} where
  -- No middleware stands before one of lower priority.
  abbrev pub Sorted : List (NamedMiddleware X) → Type 0
  Sorted [] = Unit
  Sorted (m ∷ ms) = All (λ n. priority_of m ≤ priority_of n) ms × Sorted ms

  -- The middleware of one priority, in the order of the list.
  abbrev pub of_priority : ℕ → List (NamedMiddleware X) → List (NamedMiddleware X)
  of_priority k ms = filter (λ m. priority_of m == k) ms

  All-le :
      (a b : ℕ) (ms : List (NamedMiddleware X))
      → a ≤ b
      → All (λ n. b ≤ priority_of n) ms
      → All (λ n. a ≤ priority_of n) ms
  All-le a b [] le h = tt
  All-le a b (m ∷ ms) le h = (omega (arith, le, h.0), All-le a b ms le h.1)

  All-place :
      (a : ℕ) (m : NamedMiddleware X) (ms : List (NamedMiddleware X))
      → a ≤ priority_of m
      → All (λ n. a ≤ priority_of n) ms
      → All (λ n. a ≤ priority_of n) (place m ms)
  unfolding place
  All-place a m [] le h = (le, tt)
  All-place a m (n ∷ ns) le h = elim (Bool-cases (leb (priority_of m) (priority_of n))) [
    | inl before ↦ rw before (le, h)
    | inr after ↦ rw after (h.0, All-place a m ns le h.1)
  ]

  place-Sorted :
      (m : NamedMiddleware X) (ms : List (NamedMiddleware X)) → Sorted ms → Sorted (place m ms)
  unfolding place
  place-Sorted m [] s = (tt, tt)
  place-Sorted m (n ∷ ns) s = elim (Bool-cases (leb (priority_of m) (priority_of n))) [
    | inl before ↦
        rw before ((ground arith, All-le (priority_of m) (priority_of n) ns (ground arith) s.0), s)
    | inr after ↦
        rw after (All-place (priority_of n) m ns (ground arith) s.0, place-Sorted m ns s.1)
  ]

  of_priority-place :
      (k : ℕ) (m : NamedMiddleware X) (ms : List (NamedMiddleware X))
      → of_priority k (place m ms) ≡ of_priority k (m ∷ ms)
  unfolding place
  of_priority-place k m [] = refl
  of_priority-place k m (n ∷ ns) = elim (Bool-cases (leb (priority_of m) (priority_of n))) [
    | inl before ↦ rw before refl
    | inr after ↦ rw after (ground (arith, of_priority-place k m ns))
  ]

  sort-Sorted : (ms : List (NamedMiddleware X)) → Sorted (sort ms)
  unfolding sort
  sort-Sorted [] = tt
  sort-Sorted (m ∷ ms) = place-Sorted m (sort ms) (sort-Sorted ms)

  of_priority-sort :
      (k : ℕ) (ms : List (NamedMiddleware X)) → of_priority k (sort ms) ≡ of_priority k ms
  unfolding sort
  of_priority-sort k [] = refl
  of_priority-sort k (m ∷ ms) =
      ground (arith, of_priority-place k m (sort ms), of_priority-sort k ms)

-- The middleware that `all_middleware` returns is sorted by priority, 100 where none is given, and
-- those of one priority are all the registered ones of that priority, in their order in the
-- registry's map.
pub all_middleware-Sorted :
    {X : Type 0} (r : PluginRegistry X)
    → Sorted (all_middleware r)
      × ((k : ℕ)
          → of_priority k (all_middleware r)
            ≡ of_priority k (
                map
                  (λ (e : RegistryEntry (NamedMiddleware X)). e.extension)
                  (values r.middleware_map)))
unfolding all_middleware
all_middleware-Sorted r = (
  sort-Sorted (map _ (values r.middleware_map)),
  λ k. of_priority-sort k (map _ (values r.middleware_map)),
)
