-- ===== src/Proxy/RouteTree/Tests.antt =====
-- Routes of concrete trees.
use prism_pipe.Prelude.{◌≡◌, refl, false, Option, none, some, String, [], ◌∷◌, All}
use prism_pipe.Proxy.RouteTree.{
  RouteFields, plain, nested, function, Routes, stop, route, route_of, join_route_path,
  default_route, resolve_routes,
}
use prism_pipe.Proxy.RouteTree.Leaves.{bare, inside, later, IsLeaf, Has, resolve_routes-Leaf}

abbrev fields : Option String → RouteFields String
fields prompt = record {
  providers = none;
  compose = none;
  system_prompt = prompt;
  middleware = false;
  circuit_breaker = false;
  retry = false;
  degradation = false;
}

abbrev tree : Routes String
tree = route "hook" function (
    route "/v1/" (nested (fields none) (route "chat" (plain (fields (some "Be brief."))) stop))
      stop)

joined : join_route_path "/v1/" "chat" ≡ "/v1/chat"
unfolding join_route_path
joined = refl

resolves : resolve_routes none tree ≡ route_of "/v1/chat" (fields (some "Be brief.")) ∷ []
unfolding resolve_routes join_route_path
resolves = refl

defaults :
    resolve_routes {C = String} (some ("openai" ∷ [])) stop ≡ default_route ("openai" ∷ []) ∷ []
unfolding resolve_routes
defaults = refl

resolve_routes-Leaf_example :
    Has (route_of "/v1/chat" (fields (some "Be brief."))) (resolve_routes none tree)
    × All (IsLeaf "" tree) (resolve_routes none tree)
unfolding join_route_path
resolve_routes-Leaf_example =
    resolve_routes-Leaf none tree "/v1/chat" (fields (some "Be brief.")) (later (inside bare))
