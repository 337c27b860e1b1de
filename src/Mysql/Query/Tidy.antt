-- ===== src/Mysql/Query/Tidy.antt =====
-- The methods of mysql/sql.go close what they open, in the order of the deferred calls.
use motor.Base.{
  ℕ, Text, lit, Dict, ◌≡◌, refl, sym, subst, inl, inr, Option, none, some, List, [], ◌∷◌, ◌++◌, ltb,
  Bool-cases,
}
use motor.Base.Outcome.{Outcome, returned, panicked}
use motor.Mysql.Conn.{Db}
use motor.Trace.{TJaeger, Stored, trace_ctx}
use motor.Mysql.Query.{
  Error, query_failed, scan_failed, exec_failed, build_failed, ok, err, Effect, starts_span,
  finishes_span, queries, execs, opens_rows, closes_rows, logs_slow, Library, Run, emit, deferred,
  answered, with_span, slow_log, slow_log_dur, timed, method, done, result_of, fetch_rows,
  exec_statement, get_list, insert, update, named_query, wrapped, get_row,
}

-- What is open: a span by its name, or rows.
pub data Held (S : Type 0) : Type 0 where
  span : Text → Held S
  row_set : S → Held S

module _ {X V S : Type 0} where
  -- From what is open at first to what is open at the end, the last opened first: only that is
  -- closed, and statements do not change it.
  abbrev pub Replays : List (Held S) → List (Effect X V S) → List (Held S) → Type 0
  Replays hs [] ks = hs ≡ ks
  Replays hs (starts_span x name ∷ es) ks = Replays (span name ∷ hs) es ks
  Replays [] (finishes_span name ∷ es) ks = ⊥
  Replays (span other ∷ hs) (finishes_span name ∷ es) ks = (other ≡ name) × Replays hs es ks
  Replays (row_set r ∷ hs) (finishes_span name ∷ es) ks = ⊥
  Replays hs (queries db cond vals ∷ es) ks = Replays hs es ks
  Replays hs (execs db cond vals ∷ es) ks = Replays hs es ks
  Replays hs (opens_rows r ∷ es) ks = Replays (row_set r ∷ hs) es ks
  Replays [] (closes_rows r ∷ es) ks = ⊥
  Replays (span name ∷ hs) (closes_rows r ∷ es) ks = ⊥
  Replays (row_set other ∷ hs) (closes_rows r ∷ es) ks = (other ≡ r) × Replays hs es ks
  Replays hs (logs_slow cond vals ∷ es) ks = Replays hs es ks

  -- All that is opened is closed, and nothing else.
  abbrev pub IsTidy : List (Effect X V S) → Type 0
  IsTidy es = (hs : List (Held S)) → Replays hs es hs

  Replays-append :
      (hs ks ls : List (Held S)) (es fs : List (Effect X V S))
      → Replays hs es ks
      → Replays ks fs ls
      → Replays hs (es ++ fs) ls
  Replays-append hs ks ls [] fs p q = subst (λ x. Replays x fs ls) (sym p) q
  Replays-append hs ks ls (starts_span x name ∷ es) fs p q =
      Replays-append (span name ∷ hs) ks ls es fs p q
  Replays-append [] ks ls (finishes_span name ∷ es) fs p q = absurd p
  Replays-append (span other ∷ hs) ks ls (finishes_span name ∷ es) fs p q =
      (p.0, Replays-append hs ks ls es fs p.1 q)
  Replays-append (row_set r ∷ hs) ks ls (finishes_span name ∷ es) fs p q = absurd p
  Replays-append hs ks ls (queries db cond vals ∷ es) fs p q = Replays-append hs ks ls es fs p q
  Replays-append hs ks ls (execs db cond vals ∷ es) fs p q = Replays-append hs ks ls es fs p q
  Replays-append hs ks ls (opens_rows r ∷ es) fs p q =
      Replays-append (row_set r ∷ hs) ks ls es fs p q
  Replays-append [] ks ls (closes_rows r ∷ es) fs p q = absurd p
  Replays-append (span name ∷ hs) ks ls (closes_rows r ∷ es) fs p q = absurd p
  Replays-append (row_set other ∷ hs) ks ls (closes_rows r ∷ es) fs p q =
      (p.0, Replays-append hs ks ls es fs p.1 q)
  Replays-append hs ks ls (logs_slow cond vals ∷ es) fs p q = Replays-append hs ks ls es fs p q

slow_log-IsTidy :
    (X S : Type 0) {V : Type 0} (cond : Text) (vals : List V) (dur : ℕ)
    → IsTidy {X = X} {S = S} (slow_log cond vals dur)
unfolding slow_log
slow_log-IsTidy X S cond vals dur = elim (Bool-cases (ltb slow_log_dur dur)) [
  | inl e ↦ λ hs. rw (e, slow_log) refl
  | inr e ↦ λ hs. rw (e, slow_log) refl
]

module _ {X V S A : Type 0} where
  answered-IsTidy :
      {B : Type 0} (e : Error) (o : Outcome (Option B)) (k : B → Run X V S A)
      → ((b : B) → IsTidy (k b).1)
      → IsTidy (answered e o k).1
  unfolding answered
  answered-IsTidy e panicked k h = λ hs. refl
  answered-IsTidy e (returned none) k h = λ hs. refl
  answered-IsTidy e (returned (some b)) k h = h b

  spanned-IsTidy :
      (x : X) (name : Text) (body : Run X V S A)
      → IsTidy body.1
      → IsTidy (emit (starts_span x name) (deferred (finishes_span name ∷ []) body)).1
  unfolding emit deferred
  spanned-IsTidy x name (r, es) h = λ hs.
      Replays-append (span name ∷ hs) (span name ∷ hs) hs es (finishes_span name ∷ [])
        (h (span name ∷ hs)) (refl, refl)

  fetched-IsTidy :
      (s : S) (body : Run X V S A)
      → IsTidy body.1
      → IsTidy (emit (opens_rows s) (deferred (closes_rows s ∷ []) body)).1
  unfolding emit deferred
  fetched-IsTidy s (r, es) h = λ hs.
      Replays-append (row_set s ∷ hs) (row_set s ∷ hs) hs es (closes_rows s ∷ [])
        (h (row_set s ∷ hs)) (refl, refl)

  with_span-IsTidy :
      {C : Type 0} (tracer : Option (TJaeger C)) (c : Option (Dict (Stored X))) (name : Text)
      (body : Run X V S A)
      → IsTidy body.1
      → IsTidy (with_span tracer c name body).1
  unfolding with_span
  with_span-IsTidy tracer none name body h = h
  with_span-IsTidy tracer (some c) name body h = go (trace_ctx tracer c)
    where
      go :
          (o : Outcome (Option X))
          → IsTidy
              (elim o as (λ _. Run X V S A) [
                | panicked ↦ (panicked, [])
                | returned none ↦ body
                | returned (some x) ↦
                    emit (starts_span x name) (deferred (finishes_span name ∷ []) body)
              ]).1
      go panicked = λ hs. refl
      go (returned none) = h
      go (returned (some x)) = spanned-IsTidy x name body h

  timed-IsTidy :
      (dur : ℕ) (k : Text → List V → Run X V S A)
      → ((cond : Text) (vals : List V) → IsTidy (k cond vals).1)
      → (p : Text × List V) → IsTidy (timed dur k p).1
  unfolding timed deferred
  timed-IsTidy dur k h (cond, vals) = λ hs.
      Replays-append hs hs hs (k cond vals).1 (slow_log cond vals dur) (h cond vals hs)
        (slow_log-IsTidy X S cond vals dur hs)

  method-IsTidy :
      {C : Type 0} (tracer : Option (TJaeger C)) (c : Option (Dict (Stored X))) (dur : ℕ)
      (name : Text) (built : Outcome (Option (Text × List V))) (k : Text → List V → Run X V S A)
      → ((cond : Text) (vals : List V) → IsTidy (k cond vals).1)
      → IsTidy (method tracer c dur name built k).1
  unfolding method
  method-IsTidy tracer c dur name built k h =
      with_span-IsTidy tracer c name (answered build_failed built (timed dur k))
        (answered-IsTidy build_failed built (timed dur k) (timed-IsTidy dur k h))

module _ {W V S E D X C : Type 0} (lib : Library W V S E D) (tracer : Option (TJaeger C))
    (c : Option (Dict (Stored X))) (db : Db) (dur : ℕ) where
  fetch_rows-IsTidy :
      (cond : Text) (vals : List V) → IsTidy {X = X} (fetch_rows lib tracer c db dur cond vals).1
  unfolding fetch_rows emit done
  fetch_rows-IsTidy cond vals = answered-IsTidy query_failed (lib.query db.db cond vals) _ (λ s.
      fetched-IsTidy {X = X} {V = V} s (answered scan_failed (lib.scan s) done)
        (answered-IsTidy {X = X} {V = V} scan_failed (lib.scan s) done (λ d hs. refl)))

  exec_statement-IsTidy :
      (result : E → Option ℕ) (cond : Text) (vals : List V)
      → IsTidy {X = X} (exec_statement lib tracer c db dur result cond vals).1
  unfolding exec_statement emit result_of
  exec_statement-IsTidy result cond vals =
      answered-IsTidy exec_failed (lib.exec db.db cond vals) _ (λ e. counted (result e))
    where
      counted : (o : Option ℕ) → IsTidy (result_of {X = X} {V = V} {S = S} o).1
      counted none = λ hs. refl
      counted (some n) = λ hs. refl

  wrapped-IsTidy : (r : Run X V S D) → IsTidy r.1 → IsTidy (wrapped lib tracer c db dur r).1
  unfolding wrapped
  wrapped-IsTidy (panicked, es) h = h
  wrapped-IsTidy (returned (ok d), es) h = h
  wrapped-IsTidy (returned (err e), es) h = h

  -- However the builder, the database and the scanner answer, or panic, each method closes the
  -- rows and the span that it opened, in the opposite order, and closes nothing else.
  pub methods-IsTidy :
      (where_ values : W) (fields : List Text) (rows : List W) (query : Text)
      → IsTidy (get_list lib tracer c db dur where_ fields).1
        × IsTidy (get_row lib tracer c db dur where_ fields).1
        × IsTidy (insert lib tracer c db dur rows).1
        × IsTidy (update lib tracer c db dur where_ values).1
        × IsTidy (named_query lib tracer c db dur query values).1
  unfolding get_list get_row insert update named_query
  methods-IsTidy where_ values fields rows query =
      let reads = λ (name : Text) (o : Outcome (Option (Text × List V))).
        method-IsTidy tracer c dur name o (fetch_rows lib tracer c db dur) fetch_rows-IsTidy in
      let writes = λ (result : E → Option ℕ) (name : Text) (o : Outcome (Option (Text × List V))).
        method-IsTidy tracer c dur name o (exec_statement lib tracer c db dur result)
          (exec_statement-IsTidy result) in
      (
        reads (lit "GetList") (lib.build_select db.table where_ fields),
        wrapped-IsTidy (get_list lib tracer c db dur where_ fields)
            (reads (lit "GetList") (lib.build_select db.table where_ fields)),
        writes lib.last_insert_id (lit "Insert") (lib.build_insert db.table rows),
        writes lib.rows_affected (lit "Update") (lib.build_update db.table where_ values),
        reads (lit "NamedQuery") (lib.named_query query values),
      )
