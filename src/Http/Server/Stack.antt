-- ===== src/Http/Server/Stack.antt =====
-- The middleware of a server as one function of the handlers' outcome, and what it makes of a panic.
use motor.Base.{
  ◌+◌, ◌-◌, Bool, true, false, ◌||◌, not, ◌≡◌, refl, ap, ◌∙◌, inl, inr, none, some, List, [], ◌∷◌,
  ◌++◌, text_eq, if◌then◌else◌, Bool-cases, Option-cases,
}
use motor.Http.Request.{
  Panic, Ending, done, panics, Span, Request, Handler, Library, abort_with_status, send, Middleware,
}
use motor.Http.Guard.{broken_pipe, recovery, recovered, caught, ratelimit, exit}
use motor.Http.Report.{
  traced, trace, tagged, span_of, metrics, count_request, logger, logged, access_of,
}
use motor.Http.Server.{
  Added, adds_metrics, adds_ratelimit, Setup, server, chain, used, default_server, use_middleware,
  call, middlewares,
}

module _ {S : Type 0} where
  -- The request behind Trace.
  abbrev pub begun : Library S → Request S → Request S
  begun lib c = if lib.registered then traced lib c else c

  abbrev pub with_entry : Setup S → Request S → Request S
  with_entry s c = if s.enabled then record c { entries = c.entries + 1 } else c

  abbrev exited : Setup S → Request S → Request S
  exited s r = if s.enabled then record r { entries = r.entries - 1 } else r

  -- The request as the handlers behind what is added get it, and as it comes back.
  unfoldable pub given : Setup S → List Added → Request S → Request S
  given s [] c = c
  given s (adds_metrics ∷ xs) c = given s xs c
  given s (adds_ratelimit ∷ xs) c = given s xs (with_entry s c)

  unfoldable pub left : Setup S → List Added → Request S → Request S
  left s [] r = r
  left s (adds_metrics ∷ xs) r = left s xs r
  left s (adds_ratelimit ∷ xs) r = exited s (left s xs r)

  -- The spans after a request, if there is a tracer.
  abbrev pub spans_of : Library S → Request S → Ending → Request S → List (Span S)
  spans_of lib c e r =
      if lib.registered
      then r.spans ++ (span_of c.path (lib.extract c.header) e r ∷ [])
      else r.spans

  abbrev pub with_spans : Library S → Request S → Ending × Request S → Ending × Request S
  with_spans lib c (e, r) = (e, record r { spans = spans_of lib c e r })

  abbrev pub measured : Setup S → Request S → Ending × Request S → Ending × Request S
  measured s c x = if text_eq c.path s.default_path then x else count_request s.vectors c.now x

  -- What is added, around `next`.
  abbrev pub behind : Setup S → List Added → Handler S → Handler S
  behind s xs next = chain (middlewares s xs) next

  -- The middleware of a DefaultServer, by what comes of the request behind it.
  unfoldable pub answer : Library S → Request S → Ending × Request S → Request S
  answer lib c x = access_of lib c (recovered (with_spans lib c x))

  pub trace_lem :
      (lib : Library S) (next : Handler S) (c : Request S)
      → trace lib next c ≡ with_spans lib c (next (begun lib c))
  unfolding trace tagged
  trace_lem lib next c = elim (Bool-cases lib.registered) [
    | inl e ↦ rw (e, trace) refl
    | inr e ↦ rw (e, trace) refl
  ]

  pub metrics-begun :
      (s : Setup S) (next : Handler S) (c : Request S)
      → metrics s.vectors s.default_path next (begun s.lib c) ≡ measured s c (next (begun s.lib c))
  unfolding metrics traced
  metrics-begun s next c = elim (Bool-cases s.lib.registered) [
    | inl e ↦ rw (e, metrics) refl
    | inr e ↦ rw (e, metrics) refl
  ]

  chain-nil : (ms : List (Middleware S)) (next : Handler S) → chain (ms ++ []) next ≡ chain ms next
  unfolding chain
  chain-nil [] next = refl
  chain-nil (m ∷ ms) next = ap m (chain-nil ms next)

  pub server_lem :
      (s : Setup S) (next : Handler S) (c : Request S)
      → server s next c ≡ (done, answer s.lib c (behind s s.added next (begun s.lib c)))
  unfolding server chain used default_server use_middleware call logger logged recovery answer
  server_lem s next c =
      ap (λ x. (done, access_of s.lib c (recovered x)))
        (trace_lem s.lib (chain (middlewares s s.added ++ []) next) c
          ∙ ap (λ (h : Handler S). with_spans s.lib c (h (begun s.lib c)))
              (chain-nil (middlewares s s.added) next))

  -- The flow rule lets the request pass, at each Ratelimit that is added.
  abbrev pub Passes : Setup S → List Added → Request S → Type 0
  Passes s [] c = Unit
  Passes s (adds_metrics ∷ xs) c = Passes s xs c
  Passes s (adds_ratelimit ∷ xs) c =
      ((not s.enabled || s.enter c) ≡ true) × Passes s xs (with_entry s c)

  ratelimit-panics :
      (enabled : Bool) (enter : Request S → Bool) (next : Handler S) (c r : Request S) (p : Panic)
      → (not enabled || enter c) ≡ true
      → next (if enabled then record c { entries = c.entries + 1 } else c) ≡ (panics p, r)
      → ratelimit enabled enter next c
        ≡ (panics p, if enabled then record r { entries = r.entries - 1 } else r)
  unfolding ratelimit exit
  ratelimit-panics true enter next c r p passes h = rw (passes, h) refl
  ratelimit-panics false enter next c r p passes h = h

  metrics-panics :
      (s : Setup S) (next : Handler S) (c r : Request S) (p : Panic)
      → next c ≡ (panics p, r)
      → metrics s.vectors s.default_path next c ≡ (panics p, r)
  unfolding metrics count_request
  metrics-panics s next c r p h = elim (Bool-cases (text_eq c.path s.default_path)) [
    | inl e ↦ rw (e, h, metrics) refl
    | inr e ↦ rw (e, h, metrics) refl
  ]

  -- What is added lets a panic through, and its entries exit.
  behind-panics :
      (s : Setup S) (xs : List Added) (next : Handler S) (c r : Request S) (p : Panic)
      → Passes s xs c
      → next (given s xs c) ≡ (panics p, r)
      → behind s xs next c ≡ (panics p, left s xs r)
  unfolding chain middlewares given left
  behind-panics s [] next c r p passes h = h
  behind-panics s (adds_metrics ∷ xs) next c r p passes h =
      metrics-panics s (behind s xs next) c (left s xs r) p (behind-panics s xs next c r p passes h)
  behind-panics s (adds_ratelimit ∷ xs) next c r p (passes, rest) h =
      ratelimit-panics s.enabled s.enter (behind s xs next) c (left s xs r) p passes
        (behind-panics s xs next (with_entry s c) r p rest h)

  -- How an answer differs from a request that a panic left as `r`.
  abbrev pub Crashed : Library S → Request S → Panic → Request S → Request S → Type 0
  Crashed lib c p r d =
      (d.aborted ≡ true)
      × (d.status ≡ (if broken_pipe p then r.status else 500))
      × (d.sent ≡ (
          if broken_pipe p
          then r.sent
          else elim r.sent [ none ↦ some 500 | some first ↦ some first ]))
      × (d.entries ≡ r.entries)
      × (d.counted ≡ r.counted)
      × (d.failed ≡ r.failed)
      × (d.observed ≡ r.observed)
      × (d.spans ≡ (
          if lib.registered
          then r.spans
            ++ (record {
              name = c.path;
              parent = lib.extract c.header;
              status = none;
              method = none;
              url = none;
              error = false;
            }
                ∷ [])
          else r.spans))

  pub answer-panics :
      (lib : Library S) (c r : Request S) (p : Panic)
      → Crashed lib c p r (answer lib c (panics p, r))
  unfolding answer access_of recovered caught abort_with_status span_of send
  answer-panics lib c r p = elim (Bool-cases (broken_pipe p)) [
    | inl e ↦ rw e (refl, refl, refl, refl, refl, refl, refl, refl)
    | inr e ↦ elim (Option-cases r.sent) [
      | inl k ↦ rw (e, k) (refl, refl, refl, refl, refl, refl, refl, refl)
      | inr (n, k) ↦ rw (e, k) (refl, refl, refl, refl, refl, refl, refl, refl)
    ]
  ]

  -- When the flow rule lets a request pass and the handlers panic, a DefaultServer with Metrics
  -- and Ratelimit added in any order and number does not: the request is aborted and its sentinel
  -- entries exit, and unless the panic is a broken connection its status is 500, which the client
  -- gets where nothing was sent; but no metric counts or observes it, and its span, where there is
  -- a tracer, has no status, method and URL and no error tag.
  pub server-panics :
      (s : Setup S) (next : Handler S) (c r : Request S) (p : Panic)
      → Passes s s.added (begun s.lib c)
      → next (given s s.added (begun s.lib c)) ≡ (panics p, r)
      → let (ending, d) = server s next c in
        (ending ≡ done) × Crashed s.lib c p (left s s.added r) d
  server-panics s next c r p passes h =
      let q =
        server_lem s next c
        ∙ ap (λ y. (done, answer s.lib c y))
            (behind-panics s s.added next (begun s.lib c) r p passes h) in
      rw q (refl, answer-panics s.lib c (left s s.added r) p)
