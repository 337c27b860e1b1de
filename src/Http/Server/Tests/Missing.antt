-- ===== src/Http/Server/Tests/Missing.antt =====
-- A request for a path that has a route for another method.
use motor.Base.{
  ℕ, ◌≡◌, refl, Text, lit, Bool, false, ◌&&◌, ◌||◌, Option, none, some, List, [], ◌∷◌, ◌++◌,
  text_eq, if◌then◌else◌,
}
use motor.Http.Request.{done, Request, Handler}
use motor.Http.Server.{
  Call, call, route, no_route, no_method, use_all, Engine, chain, used, no_route_of, no_method_of,
  default_server, IsGin,
}
use motor.Http.Server.Missing.{with_routes, Misses, default_server-missing}
use motor.Http.Server.Tests.{tracer, conf, visit, busy}

-- The path has a route for the method, or for any.
abbrev has_route : Option Text → Text → List (Call Text) → Bool
has_route method path [] = false
has_route none path (route m p h ∷ calls) = text_eq p path || has_route none path calls
has_route (some method) path (route m p h ∷ calls) =
    (text_eq m method && text_eq p path) || has_route (some method) path calls
has_route method path (no_route h ∷ calls) = has_route method path calls
has_route method path (no_method h ∷ calls) = has_route method path calls
has_route method path (use_all ms ∷ calls) = has_route method path calls

-- With a slash at the end, the path has a route for the method.
abbrev has_slashed : Text → Text → List (Call Text) → Bool
has_slashed method path [] = false
has_slashed method path (route m p h ∷ calls) =
    (text_eq m method && (text_eq (path ++ lit "/") p || text_eq (p ++ lit "/") path))
    || has_slashed method path calls
has_slashed method path (no_route h ∷ calls) = has_slashed method path calls
has_slashed method path (no_method h ∷ calls) = has_slashed method path calls
has_slashed method path (use_all ms ∷ calls) = has_slashed method path calls

abbrev served : Engine Text → Request Text → Bool
served e c = has_route (some c.method) c.path e.calls

abbrev redirected : Engine Text → Request Text → Bool
redirected e c = has_slashed c.method c.path e.calls

abbrev allowed : Engine Text → Request Text → Bool
allowed e c = has_route none c.path e.calls

abbrev bare : ℕ → Handler Text
bare status c = (done, record c { status = status })

-- An engine that answers 200 to what it serves, and 301 to what it redirects.
abbrev serve : Engine Text → Handler Text
serve e c =
    if served e c
    then bare 200 c
    else if redirected e c
    then bare 301 c
    else if e.handle_method_not_allowed && allowed e c
    then chain (used e.calls) (no_method_of (bare 405) e.calls) (record c { status = 405 })
    else chain (used e.calls) (no_route_of (bare 404) e.calls) (record c { status = 404 })

serve-IsGin : IsGin serve served redirected allowed (bare 404) (bare 405)
serve-IsGin e c d status h slash run sent = rw (h, slash) run

-- A POST to a path that has a route for GET.
abbrev posted : Request Text
posted = record (visit (lit "/a")) { method = lit "POST" }

abbrev routes : List (Text × Text × Handler Text)
routes = (lit "GET", lit "/a", busy) ∷ []

default_server-missing_example :
    let (ending, d) = serve (with_routes routes (default_server tracer conf).engine) posted in
    (ending ≡ done) × Misses tracer posted d
unfolding text_eq with_routes call default_server
default_server-missing_example =
    default_server-missing tracer conf routes serve served redirected allowed (bare 404) (bare 405)
      posted serve-IsGin refl refl refl
