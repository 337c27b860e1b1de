-- ===== src/Http/Server.antt =====
-- http/server.go and http/pprof.go: a server as the calls that it makes of its gin.Engine. What gin
-- does with them is in IsGin; pprof's handlers, endless and sentinel are arguments.
mod Tests
pub mod Stack
pub mod Reported
pub mod Kept
pub mod Missing
pub mod Signed
pub mod Traced
use motor.Base.{
  ℕ, ◌≡◌, Text, lit, Bool, true, false, ◌&&◌, List, [], ◌∷◌, ◌++◌, if◌then◌else◌, Option, some,
}
use motor.Http.Request.{done, Request, Handler, Middleware, Library, data_of}
use motor.Http.Guard.{recovery, ratelimit}
use motor.Http.Report.{Vectors, trace, metrics, logger}

-- Timeouts are the nanoseconds of a conf.Duration.
pub record ServerConf : Type 0 where
  pub addr : Text
  pub read_timeout : ℕ
  pub write_timeout : ℕ
  pub cert_file : Text
  pub key_file : Text

-- A call of the engine. Of a route there are the method, the path and the handler.
pub data Call (S : Type 0) : Type 0 where
  no_route no_method : Handler S → Call S
  use_all : List (Middleware S) → Call S
  route : Text → Text → Handler S → Call S

-- gin.New() has no calls and HandleMethodNotAllowed unset.
pub record Engine (S : Type 0) : Type 0 where
  pub calls : List (Call S)
  pub handle_method_not_allowed : Bool

pub record Server (S : Type 0) : Type 0 where
  pub engine : Engine S
  pub conf : ServerConf

module _ {S : Type 0} where
  unfoldable pub chain : List (Middleware S) → Handler S → Handler S
  chain [] next = next
  chain (m ∷ ms) next = m (chain ms next)

  unfoldable pub call : Call S → Engine S → Engine S
  call x e = record e { calls = e.calls ++ (x ∷ []) }

  -- c.Data and c.Abort
  unfoldable pub refuse : ℕ → Text → Handler S
  unfolding data_of
  refuse status text c =
      (done, record (data_of status (lit "text/plain") text c) { aborted = true })

  unfoldable pub default_server : Library S → ServerConf → Server S
  unfolding call
  default_server lib svc = record {
    engine = call (use_all (logger lib ∷ recovery ∷ trace lib ∷ [])) (
        call (no_method (refuse 405 (lit "Method Not Allowed"))) (
          call (no_route (refuse 404 (lit "404 page not found")))
            (record { calls = []; handle_method_not_allowed = false })));
    conf = svc;
  }

  -- Use
  unfoldable pub use_middleware : List (Middleware S) → Server S → Server S
  unfolding call
  use_middleware ms s = record s { engine = call (use_all ms) s.engine }

-- endless.DefaultReadTimeOut and DefaultWriteTimeOut
pub record Endless : Type 0 where
  pub read_time_out : ℕ
  pub write_time_out : ℕ

set_timeouts : {S : Type 0} → Server S → Endless → Endless
set_timeouts s e = record {
  read_time_out = s.conf.read_timeout;
  write_time_out = s.conf.write_timeout;
}

module _ {S : Type 0} where
  -- `listen` is endless.ListenAndServe with the settings that it finds, `true` for an error.
  unfoldable pub run : (Text → Engine S → Endless → Bool) → Server S → Endless → Bool × Endless
  unfolding set_timeouts
  run listen s e = let e' = set_timeouts s e in (listen s.conf.addr s.engine e', e')

  unfoldable pub run_tls :
      (Text → Text → Text → Engine S → Endless → Bool) → Server S → Endless → Bool × Endless
  unfolding set_timeouts
  run_tls listen s e =
      let e' = set_timeouts s e in
      (listen s.conf.addr s.conf.cert_file s.conf.key_file s.engine e', e')

  -- What OpenPerf asks of an engine; `profile` are pprof's handlers.
  unfoldable pub perf_routes : (Text → Handler S) → List Text → Engine S → Engine S
  unfolding call
  perf_routes profile [] e = e
  perf_routes profile (name ∷ names) e =
      perf_routes profile names
        (call (route (lit "GET") (lit "/debug/pprof/" ++ name) (profile name)) e)

abbrev pub profiles : List Text
profiles =
    []
    ∷ lit "cmdline"
    ∷ lit "profile"
    ∷ lit "symbol"
    ∷ lit "trace"
    ∷ lit "allocs"
    ∷ lit "block"
    ∷ lit "goroutine"
    ∷ lit "heap"
    ∷ lit "mutex"
    ∷ lit "threadcreate"
    ∷ []

module _ {S : Type 0} where
  -- OpenPerf, with perfOnce, `true` once it has run.
  unfoldable pub open_perf : (Text → Handler S) → Bool × Server S → Bool × Server S
  unfolding perf_routes
  open_perf profile (true, s) = (true, s)
  open_perf profile (false, s) = (true, record s { engine = perf_routes profile profiles s.engine })

  -- The middleware that was added by calls, and the handlers that gin runs in the place of a route:
  -- the last ones that were set.
  unfoldable pub used : List (Call S) → List (Middleware S)
  used [] = []
  used (use_all ms ∷ calls) = ms ++ used calls
  used (no_route h ∷ calls) = used calls
  used (no_method h ∷ calls) = used calls
  used (route method path h ∷ calls) = used calls

  unfoldable pub no_route_of : Handler S → List (Call S) → Handler S
  no_route_of h [] = h
  no_route_of h (no_route h' ∷ calls) = no_route_of h' calls
  no_route_of h (no_method h' ∷ calls) = no_route_of h calls
  no_route_of h (use_all ms ∷ calls) = no_route_of h calls
  no_route_of h (route method path h' ∷ calls) = no_route_of h calls

  unfoldable pub no_method_of : Handler S → List (Call S) → Handler S
  no_method_of h [] = h
  no_method_of h (no_method h' ∷ calls) = no_method_of h' calls
  no_method_of h (no_route h' ∷ calls) = no_method_of h calls
  no_method_of h (use_all ms ∷ calls) = no_method_of h calls
  no_method_of h (route method path h' ∷ calls) = no_method_of h calls

  -- What the program relies on of gin, for a request that no route serves and that gin does not
  -- redirect to a path with or without a slash at its end: the handlers of NoRoute, `missing` unless
  -- others were set, run behind all the middleware with the status 404 set, and what they have
  -- written stays the answer. Those of NoMethod, `other_method` unless others were set, run in their
  -- place with 405, where HandleMethodNotAllowed is set and another method has a route.
  abbrev pub IsGin :
      (Engine S → Handler S)
      → (Engine S → Request S → Bool)
      → (Engine S → Request S → Bool)
      → (Engine S → Request S → Bool)
      → Handler S
      → Handler S
      → Type 0
  IsGin serve served redirected allowed missing other_method =
      (e : Engine S) (c d : Request S) (status : ℕ)
      → served e c ≡ false
      → redirected e c ≡ false
      → (if e.handle_method_not_allowed && allowed e c
          then chain (used e.calls) (no_method_of other_method e.calls) (record c { status = 405 })
          else chain (used e.calls) (no_route_of missing e.calls) (record c { status = 404 }))
        ≡ (done, d)
      → d.sent ≡ some status
      → serve e c ≡ (done, d)

-- The middleware that a program adds to a server by Use, or to a group of its routes.
pub data Added : Type 0 where
  adds_metrics adds_ratelimit : Added

-- What the middleware of a server is set up with, and which is added, in its order.
pub record Setup (S : Type 0) : Type 0 where
  pub lib : Library S
  pub svc : ServerConf
  pub added : List Added
  pub vectors : Option Vectors
  pub default_path : Text
  pub enabled : Bool
  pub enter : Request S → Bool

module _ {S : Type 0} where
  middleware_of : Setup S → Added → Middleware S
  middleware_of s adds_metrics = metrics s.vectors s.default_path
  middleware_of s adds_ratelimit = ratelimit s.enabled s.enter

  unfoldable pub middlewares : Setup S → List Added → List (Middleware S)
  unfolding middleware_of
  middlewares s [] = []
  middlewares s (x ∷ xs) = middleware_of s x ∷ middlewares s xs

  -- The middleware of a DefaultServer, and what is added, around `next`.
  unfoldable pub server : Setup S → Handler S → Handler S
  unfolding chain used default_server use_middleware call middlewares
  server s next =
      chain
        (used (use_middleware (middlewares s s.added) (default_server s.lib s.svc)).engine.calls)
        next
