-- ===== src/Proxy/RouteTree.antt =====
-- src/proxy/route-tree.ts: `resolveRoutes`, the routes of a tree of route configurations. `C` stands
-- for the compositions, which this code only passes on; a handler that is a function is a leaf of the
-- tree without a configuration.
pub mod Leaves
mod Tests
use Prim.Native.Char.{Char, code}
use Prim.Native.String as S
use text.Mathlib.Text.{starts_with}
use prism_pipe.Prelude.{
  Bool, true, false, ◌||◌, Option, none, some, String, str_append, List, [], ◌∷◌, ◌++◌, Map, ◌==◌,
  if◌then◌else◌, get_or, keys,
}

pub record RouteFields (C : Type 0) : Type 0 where
  pub providers : Option (List String)
  pub compose : Option C
  pub system_prompt : Option String
  -- whether the field is there
  pub middleware : Bool
  pub circuit_breaker : Bool
  pub retry : Bool
  pub degradation : Bool

mutual
  pub data RouteValue (C : Type 0) : Type 0 where
    function : RouteValue C
    -- an object without `routes`, and one with them
    plain : RouteFields C → RouteValue C
    nested : RouteFields C → Routes C → RouteValue C

  pub data Routes (C : Type 0) : Type 0 where
    stop : Routes C
    route : (path : String) (value : RouteValue C) (rest : Routes C) → Routes C

pub record RouteConfig (C : Type 0) : Type 0 where
  pub path : String
  pub providers : List String
  pub system_prompt : Option String
  pub compose : Option C
  pub pipeline : Option (List String)

-- `basePath.replace(/\/$/, '')`
unfoldable pub drop_slash : String → String
drop_slash S.[] = S.[]
drop_slash (S.◌∷◌ c S.[]) = if code c == 47 then S.[] else S.◌∷◌ c S.[]
drop_slash (S.◌∷◌ c (S.◌∷◌ d s)) = S.◌∷◌ c (drop_slash (S.◌∷◌ d s))

abbrev pub join_to : String → String → String
join_to S.[] path = path
join_to (S.◌∷◌ c s) path = str_append (drop_slash (S.◌∷◌ c s)) path

unfoldable pub join_route_path : String → String → String
unfolding drop_slash
join_route_path base path =
    join_to base (if starts_with path "/" then path else str_append "/" path)

abbrev pub is_some : {A : Type 0} → Option A → Bool
is_some none = false
is_some (some a) = true

-- `isRouteLeaf` of an object with `routes`; one without is a leaf.
abbrev pub is_route_leaf : {C : Type 0} → RouteFields C → Bool
is_route_leaf f =
    is_some f.providers
    || is_some f.compose
    || is_some f.system_prompt
    || f.middleware
    || f.circuit_breaker
    || f.retry
    || f.degradation

abbrev pub route_of : {C : Type 0} → String → RouteFields C → RouteConfig C
route_of path f = record {
  path = path;
  providers = get_or f.providers [];
  system_prompt = f.system_prompt;
  compose = f.compose;
  pipeline = none;
}

unfoldable mutual
  pub visit_route : {C : Type 0} → String → String → RouteValue C → List (RouteConfig C)
  visit_route base path function = []
  visit_route base path (plain f) = route_of (join_route_path base path) f ∷ []
  visit_route base path (nested f routes) =
      (if is_route_leaf f then route_of (join_route_path base path) f ∷ [] else [])
      ++ visit_routes (join_route_path base path) routes

  pub visit_routes : {C : Type 0} → String → Routes C → List (RouteConfig C)
  visit_routes base stop = []
  visit_routes base (route path value rest) = visit_route base path value ++ visit_routes base rest

-- The route of a port that has providers and no routes.
abbrev pub default_route : {C : Type 0} → List String → RouteConfig C
default_route names = record {
  path = "/v1/chat/completions";
  providers = names;
  system_prompt = none;
  compose = none;
  pipeline = some ("log-request" ∷ "transform-format" ∷ []);
}

abbrev pub or_default_route :
    {C : Type 0} → List (RouteConfig C) → Option (List String) → List (RouteConfig C)
or_default_route [] (some names) = default_route names ∷ []
or_default_route [] none = []
or_default_route (r ∷ rs) names = r ∷ rs

-- The providers of the port by their names.
unfoldable pub resolve_routes :
    {C : Type 0} → Option (List String) → Routes C → List (RouteConfig C)
unfolding visit_routes
resolve_routes names routes = or_default_route (visit_routes "" routes) names
