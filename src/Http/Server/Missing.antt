-- ===== src/Http/Server/Missing.antt =====
-- What a DefaultServer answers where it has no route.
use motor.Base.{
  ◌-◌, Text, lit, true, false, ◌&&◌, none, some, List, [], ◌∷◌, ◌++◌, ◌≡◌, refl, ap, ◌∙◌, inl, inr,
  if◌then◌else◌, Bool, Bool-cases,
}
use motor.Http.Request.{Line, access, done, Request, Handler, Library, data_of, send}
use motor.Http.Guard.{recovery, recovered}
use motor.Http.Report.{logger, logged, access_of, access_log, with_query, span_of, traced}
use motor.Http.Server.{
  ServerConf, Call, route, use_all, no_route, no_method, Engine, call, refuse, chain,
  default_server, used, no_route_of, no_method_of, IsGin,
}
use motor.Http.Server.Stack.{begun, answer, trace_lem}

module _ {S : Type 0} where
  -- An engine with further routes.
  unfoldable pub with_routes : List (Text × Text × Handler S) → Engine S → Engine S
  unfolding call
  with_routes [] e = e
  with_routes ((method, path, h) ∷ routes) e = with_routes routes (call (route method path h) e)

  used_routes :
      (calls : List (Call S)) (method path : Text) (h : Handler S)
      → used (calls ++ (route method path h ∷ [])) ≡ used calls
  unfolding used
  used_routes [] method path h = refl
  used_routes (use_all ms ∷ calls) method path h =
      ap (λ xs. ms ++ xs) (used_routes calls method path h)
  used_routes (no_route x ∷ calls) method path h = used_routes calls method path h
  used_routes (no_method x ∷ calls) method path h = used_routes calls method path h
  used_routes (route m x y ∷ calls) method path h = used_routes calls method path h

  no_route_of-routes :
      (calls : List (Call S)) (method path : Text) (h x : Handler S)
      → no_route_of x (calls ++ (route method path h ∷ [])) ≡ no_route_of x calls
  unfolding no_route_of
  no_route_of-routes [] method path h x = refl
  no_route_of-routes (use_all ms ∷ calls) method path h x = no_route_of-routes calls method path h x
  no_route_of-routes (no_route y ∷ calls) method path h x = no_route_of-routes calls method path h y
  no_route_of-routes (no_method y ∷ calls) method path h x =
      no_route_of-routes calls method path h x
  no_route_of-routes (route m p y ∷ calls) method path h x =
      no_route_of-routes calls method path h x

  with_routes-used :
      (routes : List (Text × Text × Handler S)) (e : Engine S)
      → used (with_routes routes e).calls ≡ used e.calls
  unfolding with_routes call
  with_routes-used [] e = refl
  with_routes-used ((method, path, h) ∷ routes) e =
      with_routes-used routes (call (route method path h) e) ∙ used_routes e.calls method path h

  with_routes-no_route_of :
      (routes : List (Text × Text × Handler S)) (e : Engine S) (h : Handler S)
      → no_route_of h (with_routes routes e).calls ≡ no_route_of h e.calls
  unfolding with_routes call
  with_routes-no_route_of [] e x = refl
  with_routes-no_route_of ((method, path, h) ∷ routes) e x =
      with_routes-no_route_of routes (call (route method path h) e) x
      ∙ no_route_of-routes e.calls method path h x

  with_routes-handles :
      (routes : List (Text × Text × Handler S)) (e : Engine S)
      → (with_routes routes e).handle_method_not_allowed ≡ e.handle_method_not_allowed
  unfolding with_routes call
  with_routes-handles [] e = refl
  with_routes-handles ((method, path, h) ∷ routes) e =
      with_routes-handles routes (call (route method path h) e)

  -- The answer to a request `c` that no route serves.
  abbrev pub Misses : Library S → Request S → Request S → Type 0
  Misses lib c d =
      (d.status ≡ 404)
      × (d.sent ≡ some 404)
      × (d.replies ≡ c.replies ++ ((lit "text/plain", lit "404 page not found") ∷ []))
      × (d.aborted ≡ true)
      × (d.spans ≡ (
          if lib.registered
          then c.spans
            ++ (record {
              name = c.path;
              parent = lib.extract c.header;
              status = some 404;
              method = some c.method;
              url = some c.escaped_path;
              error = false;
            }
                ∷ [])
          else c.spans))
      × ((before : List Line) × (d.logs
            ≡ before
              ++ (access (access_log lib d) (with_query c.path c.raw_query) (d.now - c.now) d.errors
                  ∷ [])))

  -- A request as gin gives it to NoRoute's handlers, and what DefaultServer's makes of it.
  abbrev missed : Request S → Request S
  missed c = record c { status = 404 }

  abbrev answered : Library S → Request S → Request S
  answered lib c =
      answer lib (missed c) (refuse 404 (lit "404 page not found") (begun lib (missed c)))

  answered-Misses :
      (lib : Library S) (c : Request S) → c.sent ≡ none → Misses lib c (answered lib c)
  unfolding answer access_of recovered refuse data_of send span_of traced
  answered-Misses lib c fresh = elim (Bool-cases lib.registered) [
    | inl e ↦ rw (e, fresh) (refl, refl, refl, refl, refl, (_, refl))
    | inr e ↦ rw (e, fresh) (refl, refl, refl, refl, refl, (_, refl))
  ]

  refused :
      (lib : Library S) (svc : ServerConf) (missing : Handler S) (c : Request S)
      → chain
          (used (default_server lib svc).engine.calls)
          (no_route_of missing (default_server lib svc).engine.calls)
          (missed c)
        ≡ (done, answered lib c)
  unfolding chain used no_route_of default_server call recovery logger logged answer
  refused lib svc missing c =
      ap (λ x. logged lib (missed c) (done, recovered x))
        (trace_lem lib (refuse 404 (lit "404 page not found")) (missed c))

  -- With gin as far as it is relied upon, a DefaultServer with any routes answers a new request
  -- that none of them serves and that gin does not redirect for a slash at its end with 404 and
  -- its text, aborted, in a span with that status, and logs it, also where the path has a route
  -- for another method: its NoMethod handler is never run.
  pub default_server-missing :
      (lib : Library S) (svc : ServerConf) (routes : List (Text × Text × Handler S))
      (serve : Engine S → Handler S) (served redirected allowed : Engine S → Request S → Bool)
      (missing other_method : Handler S) (c : Request S)
      → IsGin serve served redirected allowed missing other_method
      → served (with_routes routes (default_server lib svc).engine) c ≡ false
      → redirected (with_routes routes (default_server lib svc).engine) c ≡ false
      → c.sent ≡ none
      → let (ending, d) = serve (with_routes routes (default_server lib svc).engine) c in
        (ending ≡ done) × Misses lib c d
  unfolding default_server call
  default_server-missing lib svc routes serve served redirected allowed missing other_method c gin h
        slash fresh =
      let e : Engine S = (default_server lib svc).engine in
      let e' : Engine S = with_routes routes e in
      let run =
        ap
          (λ b.
            if b && allowed e' c
            then chain (used e'.calls) (no_method_of other_method e'.calls)
                (record c { status = 405 })
            else chain (used e'.calls) (no_route_of missing e'.calls) (missed c))
          (with_routes-handles routes e)
        ∙ ap (λ ms. chain ms (no_route_of missing e'.calls) (missed c)) (with_routes-used routes e)
        ∙ ap (λ x. chain (used e.calls) x (missed c)) (with_routes-no_route_of routes e missing)
        ∙ refused lib svc missing c in
      let answers = answered-Misses lib c fresh in
      let q = gin e' c (answered lib c) 404 h slash run answers.1 in rw q (refl, answers)
