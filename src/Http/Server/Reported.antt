-- ===== src/Http/Server/Reported.antt =====
-- What a server reports of a request whose handlers end normally, or that is refused.
use motor.Base.{
  ℕ, ◌-◌, ◌/◌, ◌%◌, ◌^◌, ◌≤◌, ◌<◌, Text, false, ◌≡◌, refl, sym, ap, ◌∙◌, inl, inr, Option, none,
  some, List, [], ◌∷◌, ◌++◌, text_eq, leb, if◌then◌else◌, Bool-cases,
}
use mathlib.Core.Option.{some-injective}
use motor.Http.Request.{
  Panic, label_error, nil_pointer, Ending, done, panics, Request, Handler, Library,
}
use motor.Http.Guard.{broken_pipe}
use motor.Http.Report.{Vectors, count_request}
use motor.Http.Server.{Added, adds_metrics, Setup, server, chain, middlewares}
use motor.Http.Server.Stack.{
  begun, measured, behind, answer, server_lem, metrics-begun, Crashed, answer-panics,
}

-- How Metrics panics of a path: ReqCnt is nil, or takes no such label.
abbrev pub refusal : Option Vectors → Text → Option Panic
refusal none path = some nil_pointer
refusal (some v) path = if v.accepts path then none else some label_error

refusal-IsOther :
    (vs : Option Vectors) (path : Text) (p : Panic)
    → refusal vs path ≡ some p
    → broken_pipe p ≡ false
unfolding broken_pipe
refusal-IsOther none path p h = rw (sym (some-injective nil_pointer p h)) refl
refusal-IsOther (some v) path p h = elim (Bool-cases (v.accepts path)) [
  | inl e ↦ cc (rw e at h)
  | inr e ↦ rw (sym (some-injective label_error p (rw e at h))) refl
]

module _ {S : Type 0} where
  count_request-refusal :
      (vs : Option Vectors) (start : ℕ) (d : Request S) (p : Panic)
      → refusal vs d.path ≡ some p
      → count_request vs start (done, d) ≡ (panics p, d)
  unfolding count_request
  count_request-refusal none start d p h = ap (λ q. (panics q, d)) (some-injective nil_pointer p h)
  count_request-refusal (some v) start d p h = elim (Bool-cases (v.accepts d.path)) [
    | inl e ↦ cc (rw e at h)
    | inr e ↦
        rw (e, count_request) (ap (λ q. (panics q, d)) (some-injective label_error p (rw e at h)))
  ]

  measured_else :
      (s : Setup S) (c : Request S) (x : Ending × Request S)
      → text_eq c.path s.default_path ≡ false
      → measured s c x ≡ count_request s.vectors c.now x
  measured_else s c x e = rw e refl

  -- A server whose first addition is Metrics, by what comes of the request behind it.
  server-measured :
      (s : Setup S) (rest : List Added) (next : Handler S) (c : Request S) (x : Ending × Request S)
      → s.added ≡ adds_metrics ∷ rest
      → text_eq c.path s.default_path ≡ false
      → behind s rest next (begun s.lib c) ≡ x
      → server s next c ≡ (done, answer s.lib c (count_request s.vectors c.now x))
  unfolding chain middlewares
  server-measured s rest next c x first e h =
      server_lem s next c
      ∙ ap (λ xs. (done, answer s.lib c (behind s xs next (begun s.lib c)))) first
      ∙ ap (λ y. (done, answer s.lib c y))
          (metrics-begun s (behind s rest next) c ∙ ap (measured s c) h ∙ measured_else s c x e)

  -- What is reported of a request that came as `c` and that what stands behind Metrics left as `r`.
  abbrev pub Reports : Library S → Request S → Request S → Request S → Type 0
  Reports lib c r d =
      (d.status ≡ r.status)
      × (d.sent ≡ r.sent)
      × (d.aborted ≡ r.aborted)
      × (d.counted ≡ r.counted ++ ((r.path, r.status) ∷ []))
      × (d.observed ≡ r.observed ++ ((r.path, (r.now - c.now) / 1000000) ∷ []))
      × (500 ≤ r.status → d.failed ≡ r.failed ++ ((r.path, r.status) ∷ []))
      × (r.status < 500 → d.failed ≡ r.failed)
      × (d.spans ≡ (
          if lib.registered
          then r.spans
            ++ (record {
              name = c.path;
              parent = lib.extract c.header;
              status = some (r.status % 2 ^ 16);
              method = some r.method;
              url = some r.escaped_path;
              error = leb 500 r.status;
            }
                ∷ [])
          else r.spans))

  -- Where metrics.Init was not called, or a vector does not take the path as a label, a request
  -- that is not for the metrics' own path, where Metrics is the first that is added and what
  -- stands behind it ends normally, has the status 500, is aborted and not counted, and its span
  -- has no tags: the client gets 500 where nothing was sent, and else keeps the status that was
  -- sent.
  pub server-refusal :
      (s : Setup S) (rest : List Added) (next : Handler S) (c r : Request S) (p : Panic)
      → s.added ≡ adds_metrics ∷ rest
      → text_eq c.path s.default_path ≡ false
      → refusal s.vectors r.path ≡ some p
      → behind s rest next (begun s.lib c) ≡ (done, r)
      → let (ending, d) = server s next c in
        (ending ≡ done)
        × (d.status ≡ 500)
        × ((first : ℕ) → r.sent ≡ some first → d.sent ≡ some first)
        × (r.sent ≡ none → d.sent ≡ some 500)
        × Crashed s.lib c p r d
  server-refusal s rest next c r p first e f h =
      let q =
        server-measured s rest next c (done, r) first e h
        ∙ ap (λ y. (done, answer s.lib c y)) (count_request-refusal s.vectors c.now r p f) in
      let crashed = answer-panics s.lib c r p in
      let plain = refusal-IsOther s.vectors r.path p f in
      rw q (
        refl,
        crashed.1 ∙ rw plain refl,
        λ n k. crashed.2 ∙ rw (plain, k) refl,
        λ k. crashed.2 ∙ rw (plain, k) refl,
        crashed,
      )
