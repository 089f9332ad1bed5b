-- ===== src/Proxy/RouteTree/Leaves.antt =====
-- Which routes src/proxy/route-tree.ts makes of a tree.
use prism_pipe.Prelude.{
  ◌≡◌, refl, ◌⊎◌, inl, inr, true, Option, String, List, [], ◌∷◌, ◌++◌, All, All-append,
  if◌then◌else◌, Bool-cases,
}
use prism_pipe.Proxy.RouteTree.{
  RouteFields, RouteValue, function, plain, nested, Routes, stop, route, RouteConfig,
  join_route_path, is_route_leaf, route_of, visit_route, visit_routes, or_default_route,
  resolve_routes,
}

-- `Leaf base routes full f`: under the path `base`, the tree has a leaf with the fields `f` whose path
-- is `full`.
pub data Leaf {C : Type 0} : String → Routes C → String → RouteFields C → Type 0 where
  bare :
      {base path : String} {f : RouteFields C} {rest : Routes C}
      → Leaf base (route path (plain f) rest) (join_route_path base path) f
  configured :
      {base path : String} {f : RouteFields C} {inner rest : Routes C}
      → is_route_leaf f ≡ true
      → Leaf base (route path (nested f inner) rest) (join_route_path base path) f
  inside :
      {base path full : String} {f g : RouteFields C} {inner rest : Routes C}
      → Leaf (join_route_path base path) inner full g
      → Leaf base (route path (nested f inner) rest) full g
  later :
      {base path full : String} {g : RouteFields C} {value : RouteValue C} {rest : Routes C}
      → Leaf base rest full g
      → Leaf base (route path value rest) full g

-- A route that a leaf of the tree accounts for.
abbrev pub IsLeaf : {C : Type 0} → String → Routes C → RouteConfig C → Type 0
IsLeaf {C = C} base routes r =
    (f : RouteFields C) × Leaf base routes r.path f × (r ≡ route_of r.path f)

abbrev pub Has : {A : Type 0} → A → List A → Type 0
Has a [] = ⊥
Has a (x ∷ xs) = (a ≡ x) ⊎ Has a xs

Has-append_left : {A : Type 0} (a : A) (xs ys : List A) → Has a xs → Has a (xs ++ ys)
Has-append_left a [] ys h = absurd h
Has-append_left a (x ∷ xs) ys (inl e) = inl e
Has-append_left a (x ∷ xs) ys (inr h) = inr (Has-append_left a xs ys h)

Has-append_right : {A : Type 0} (a : A) (xs ys : List A) → Has a ys → Has a (xs ++ ys)
Has-append_right a [] ys h = h
Has-append_right a (x ∷ xs) ys h = inr (Has-append_right a xs ys h)

All-map :
    {A : Type 0} (P Q : A → Type 0) → ((a : A) → P a → Q a) → (xs : List A) → All P xs → All Q xs
All-map P Q f [] h = tt
All-map P Q f (x ∷ xs) (p, h) = (f x p, All-map P Q f xs h)

module _ {C : Type 0} where
  own-All :
      (base path : String) (f : RouteFields C) (inner rest : Routes C)
      → All
          (IsLeaf base (route path (nested f inner) rest))
          (if is_route_leaf f then route_of (join_route_path base path) f ∷ [] else [])
  own-All base path f inner rest = elim (Bool-cases (is_route_leaf f)) [
    | inl leaf ↦ rw leaf ((f, configured leaf, refl), tt)
    | inr bare_node ↦ rw bare_node tt
  ]

  visit_routes-Leaf :
      (base : String) (routes : Routes C) → All (IsLeaf base routes) (visit_routes base routes)
  unfolding visit_route
  visit_routes-Leaf base stop = tt
  visit_routes-Leaf base (route path function rest) =
      All-map _ _ (λ r (f, l, e). (f, later l, e)) _ (visit_routes-Leaf base rest)
  visit_routes-Leaf base (route path (plain f) rest) = (
    (f, bare, refl),
    All-map _ _ (λ r (g, l, e). (g, later l, e)) _ (visit_routes-Leaf base rest),
  )
  visit_routes-Leaf base (route path (nested f inner) rest) =
      All-append _ (_ ++ visit_routes (join_route_path base path) inner) (visit_routes base rest)
        (All-append _ _ (visit_routes (join_route_path base path) inner)
          (own-All base path f inner rest)
          (All-map _ _ (λ r (g, l, e). (g, inside l, e)) _
            (visit_routes-Leaf (join_route_path base path) inner)))
        (All-map _ _ (λ r (g, l, e). (g, later l, e)) _ (visit_routes-Leaf base rest))

  Leaf-Has :
      {base full : String} {routes : Routes C} {f : RouteFields C}
      → Leaf base routes full f
      → Has (route_of full f) (visit_routes base routes)
  unfolding visit_route
  Leaf-Has bare = inl refl
  Leaf-Has (configured leaf) = rw leaf (inl refl)
  Leaf-Has (inside {base = b} {path = p} {full = u} {f = f} {g = g} {inner = i} {rest = r} l) =
      let own = if is_route_leaf f then route_of (join_route_path b p) f ∷ [] else [] in
      let below = visit_routes (join_route_path b p) i in
      Has-append_left (route_of u g) (own ++ below) (visit_routes b r)
        (Has-append_right (route_of u g) own below (Leaf-Has l))
  Leaf-Has (later {base = b} {path = p} {full = u} {g = g} {value = v} {rest = r} l) =
      Has-append_right (route_of u g) (visit_route b p v) (visit_routes b r) (Leaf-Has l)

  keeps_routes :
      (a : RouteConfig C) (rs : List (RouteConfig C)) (names : Option (List String))
      → Has a rs
      → or_default_route rs names ≡ rs
  keeps_routes a [] names h = absurd h
  keeps_routes a (r ∷ rs) names h = refl

  -- In a tree with a leaf, that leaf's route is resolved, with the path that joins the paths on the way
  -- to it, and every route that is resolved is that of a leaf of the tree.
  pub resolve_routes-Leaf :
      (names : Option (List String)) (routes : Routes C) (full : String) (f : RouteFields C)
      → Leaf "" routes full f
      → Has (route_of full f) (resolve_routes names routes)
        × All (IsLeaf "" routes) (resolve_routes names routes)
  unfolding resolve_routes
  resolve_routes-Leaf names routes full f l =
      let found = Leaf-Has l in
      rw (keeps_routes (route_of full f) (visit_routes "" routes) names found)
        (found, visit_routes-Leaf "" routes)
