-- ===== src/Http/Server/Traced.antt =====
-- The gin context that the handlers get, and what the queries make of it: http/trace.go with
-- trace/client.go and mysql/sql.go.
use motor.Base.{
  ℕ, Text, lit, Dict, true, none, some, List, [], ◌∷◌, ◌≡◌, refl, ap, sym, ◌∙◌, if◌then◌else◌,
  Bool-cases, inl, inr,
}
use motor.Trace.{TJaeger, Stored, get_trace_ctx, get_trace_ctx-insert, trace_ctx}
use motor.Mysql.Conn.{Db}
use motor.Mysql.Query.{
  Library, Run, starts_span, finishes_span, emit, deferred, with_span, method, get_list, insert,
  update, named_query,
}
use motor.Http.Request.{done, Ctx, Request, Handler}
use motor.Http.Guard.{ratelimit}
use motor.Http.Report.{context_of, traced, metrics}
use motor.Http.Server.{Added, adds_metrics, adds_ratelimit, Setup, server, chain, middlewares}
use motor.Http.Server.Stack.{begun, with_entry, given, behind, answer, server_lem}

module _ {S : Type 0} where
  metrics_agree :
      (s : Setup S) (next next' : Handler S) (c : Request S)
      → next c ≡ next' c
      → metrics s.vectors s.default_path next c ≡ metrics s.vectors s.default_path next' c
  unfolding metrics
  metrics_agree s next next' c h = rw h refl

  ratelimit_agree :
      (s : Setup S) (next next' : Handler S) (c : Request S)
      → next (with_entry s c) ≡ next' (with_entry s c)
      → ratelimit s.enabled s.enter next c ≡ ratelimit s.enabled s.enter next' c
  unfolding ratelimit
  ratelimit_agree s next next' c h = elim (Bool-cases s.enabled) [
    | inl e ↦ rw (e, ratelimit, (rw e at h)) refl
    | inr e ↦ rw (e, ratelimit) (rw e at h)
  ]

  behind_agree :
      (s : Setup S) (xs : List Added) (next next' : Handler S) (c : Request S)
      → next (given s xs c) ≡ next' (given s xs c)
      → behind s xs next c ≡ behind s xs next' c
  unfolding chain middlewares given
  behind_agree s [] next next' c h = h
  behind_agree s (adds_metrics ∷ xs) next next' c h =
      metrics_agree s (behind s xs next) (behind s xs next') c (behind_agree s xs next next' c h)
  behind_agree s (adds_ratelimit ∷ xs) next next' c h =
      ratelimit_agree s (behind s xs next) (behind s xs next') c
        (behind_agree s xs next next' (with_entry s c) h)

  -- A server makes the same of handlers that do the same with the request that they get.
  pub server_agree :
      (s : Setup S) (next next' : Handler S) (c : Request S)
      → next (given s s.added (begun s.lib c)) ≡ next' (given s s.added (begun s.lib c))
      → server s next c ≡ server s next' c
  server_agree s next next' c h =
      server_lem s next c
      ∙ ap (λ x. (done, answer s.lib c x)) (behind_agree s s.added next next' (begun s.lib c) h)
      ∙ sym (server_lem s next' c)

  with_entry-keys : (s : Setup S) (c : Request S) → (with_entry s c).keys ≡ c.keys
  with_entry-keys s c = elim (Bool-cases s.enabled) [ inl e ↦ rw e refl | inr e ↦ rw e refl ]

  given-keys : (s : Setup S) (xs : List Added) (c : Request S) → (given s xs c).keys ≡ c.keys
  unfolding given
  given-keys s [] c = refl
  given-keys s (adds_metrics ∷ xs) c = given-keys s xs c
  given-keys s (adds_ratelimit ∷ xs) c = given-keys s xs (with_entry s c) ∙ with_entry-keys s c

  traced_keys :
      (s : Setup S) (c : Request S)
      → s.lib.registered ≡ true
      → get_trace_ctx (given s s.added (begun s.lib c)).keys ≡ some (context_of s.lib c)
  unfolding traced
  traced_keys s c h =
      let same =
        given-keys s s.added (begun s.lib c) ∙ ap (λ b. (if b then traced s.lib c else c).keys) h in
      ap get_trace_ctx same ∙ get_trace_ctx-insert (context_of s.lib c) c.keys

  within :
      {C V R A : Type 0} (t : TJaeger C) (keys : Dict (Stored (Ctx S))) (x : Ctx S) (name : Text)
      (body : Run (Ctx S) V R A)
      → get_trace_ctx keys ≡ some x
      → with_span (some t) (some keys) name body
        ≡ emit (starts_span x name) (deferred (finishes_span name ∷ []) body)
  unfolding with_span trace_ctx
  within t keys x name body h = rw (with_span, h) refl

  within_server :
      {C V R A : Type 0} (t : TJaeger C) (s : Setup S) (c : Request S) (name : Text)
      (body : Run (Ctx S) V R A) (h : Run (Ctx S) V R A → Handler S)
      → s.lib.registered ≡ true
      → server s (λ r. h (with_span (some t) (some r.keys) name body) r) c
        ≡ server s
            (λ r.
              h
                (emit
                  (starts_span (context_of s.lib c) name)
                  (deferred (finishes_span name ∷ []) body))
                r)
            c
  within_server t s c name body h registered =
      let r = given s s.added (begun s.lib c) in
      server_agree s _ _ c (
        ap (λ x. h x r)
          (within t r.keys (context_of s.lib c) name body (traced_keys s c registered)))

-- The queries that a handler makes with its gin context, behind a server.
module _ {S V W R E D C : Type 0} (lib : Library W V R E D) (t : TJaeger C) (db : Db) (dur : ℕ)
    (s : Setup S) (c : Request S) where
  -- A run inside a span `name` that is a child of the request's.
  abbrev pub inside : {A : Type 0} → Text → Run (Ctx S) V R A → Run (Ctx S) V R A
  inside name run =
      emit (starts_span (context_of s.lib c) name) (deferred (finishes_span name ∷ []) run)

  -- The four methods with the handler's gin context, by the same without one inside a span.
  abbrev pub Spanned :
      (Run (Ctx S) V R D → Handler S)
      → (Run (Ctx S) V R ℕ → Handler S)
      → W
      → W
      → List Text
      → List W
      → Text
      → Type 0
  Spanned h k where_ values fields rows query =
      (server s (λ r. h (get_list lib (some t) (some r.keys) db dur where_ fields) r) c
        ≡ server s
            (λ r. h (inside (lit "GetList") (get_list lib (some t) none db dur where_ fields)) r) c)
      × (server s (λ r. h (named_query lib (some t) (some r.keys) db dur query values) r) c
          ≡ server s
              (λ r.
                h (inside (lit "NamedQuery") (named_query lib (some t) none db dur query values)) r)
              c)
      × (server s (λ r. k (insert lib (some t) (some r.keys) db dur rows) r) c
          ≡ server s (λ r. k (inside (lit "Insert") (insert lib (some t) none db dur rows)) r) c)
      × (server s (λ r. k (update lib (some t) (some r.keys) db dur where_ values) r) c
          ≡ server s
              (λ r. k (inside (lit "Update") (update lib (some t) none db dur where_ values)) r) c)

  -- In a program with a tracer, that is also opentracing's global one, a query of a handler with
  -- the gin context it got does what the query does with no gin context, inside a span of its own
  -- that is a child of the span that Trace started for the request.
  pub server-methods :
      (h : Run (Ctx S) V R D → Handler S) (k : Run (Ctx S) V R ℕ → Handler S) (where_ values : W)
      (fields : List Text) (rows : List W) (query : Text)
      → s.lib.registered ≡ true
      → Spanned h k where_ values fields rows query
  unfolding get_list insert update named_query method with_span
  server-methods h k where_ values fields rows query registered = (
    within_server t s c (lit "GetList") (get_list lib (some t) none db dur where_ fields) h
        registered,
    within_server t s c (lit "NamedQuery") (named_query lib (some t) none db dur query values) h
        registered,
    within_server t s c (lit "Insert") (insert lib (some t) none db dur rows) k registered,
    within_server t s c (lit "Update") (update lib (some t) none db dur where_ values) k registered,
  )
