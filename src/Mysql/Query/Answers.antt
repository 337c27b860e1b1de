-- ===== src/Mysql/Query/Answers.antt =====
-- What the methods of mysql/sql.go send to the database, and when they succeed.
use motor.Base.{
  ℕ, Text, lit, Dict, ◌≡◌, ◌↔◌, refl, sym, ap, subst, ◌∙◌, Option, none, some, List, [], ◌∷◌, arith,
}
use motor.Base.Outcome.{Outcome, returned, panicked}
use motor.Mysql.Conn.{Db}
use motor.Trace.{TJaeger, Stored}
use motor.Mysql.Query.{
  query_failed, scan_failed, exec_failed, build_failed, ok, opens_rows, closes_rows, Library, Run,
  emit, deferred, answered, slow_log, timed, method, done, result_of, fetch_rows, exec_statement,
  get_list, insert, update, named_query,
}
use motor.Mysql.Query.Sent.{
  sent, statements, IsTraced, stated, sent-slow_log, SameRun, deferred-SameRun, with_span-SameRun,
  answered-ok, sent-answered,
}

module _ {X V S A : Type 0} where
  -- The database gets the builder's statement, once, and no other; and the call succeeds with `a`
  -- exactly where there is a statement whose use gives `a`.
  abbrev pub Does :
      Outcome (Option (Text × List V)) → (Text × List V → A → Type 0) → Run X V S A → Type 0
  Does built Gives run =
      (sent run.1 ≡ statements built)
      × ((a : A)
          → (run.0 ≡ returned (ok a))
            ↔ ((p : Text × List V) × (built ≡ returned (some p)) × Gives p a))

  built-Does :
      (dur : ℕ) (built : Outcome (Option (Text × List V))) (k : Text → List V → Run X V S A)
      (Gives : Text × List V → A → Type 0)
      → ((cond : Text) (vals : List V)
          → (sent (k cond vals).1 ≡ (cond, vals) ∷ [])
            × ((a : A) → ((k cond vals).0 ≡ returned (ok a)) ↔ Gives (cond, vals) a))
      → Does built Gives (answered build_failed built (timed dur k))
  unfolding answered timed
  built-Does dur panicked k Gives h = (refl, λ a. ((λ e. cc), (λ (p, e, g). cc)))
  built-Does dur (returned none) k Gives h = (refl, λ a. ((λ e. cc), (λ (p, e, g). cc)))
  built-Does dur (returned (some (cond, vals))) k Gives h =
      let same =
        deferred-SameRun (slow_log cond vals dur) (k cond vals) (sent-slow_log X S cond vals dur) in
      (
        same.1 ∙ (h cond vals).0,
        λ a. (
          (λ e. ((cond, vals), refl, ((h cond vals).1 a).0 (sym same.0 ∙ e))),
          (λ (p, e, g).
              same.0
              ∙ ((h cond vals).1 a).1 (subst (λ q. Gives q a) (sym (stated (cond, vals) p e)) g)),
        ),
      )

  method-Does :
      {C : Type 0} (tracer : Option (TJaeger C)) (c : Option (Dict (Stored X))) (dur : ℕ)
      (name : Text) (built : Outcome (Option (Text × List V))) (k : Text → List V → Run X V S A)
      (Gives : Text × List V → A → Type 0)
      → IsTraced tracer c
      → ((cond : Text) (vals : List V)
          → (sent (k cond vals).1 ≡ (cond, vals) ∷ [])
            × ((a : A) → ((k cond vals).0 ≡ returned (ok a)) ↔ Gives (cond, vals) a))
      → Does built Gives (method tracer c dur name built k)
  unfolding method
  method-Does tracer c dur name built k Gives traced h =
      let body = answered build_failed built (timed dur k) in
      let same = with_span-SameRun tracer c name body traced in
      let does = built-Does dur built k Gives h in
      (same.1 ∙ does.0, λ a. ((λ e. (does.1 a).0 (sym same.0 ∙ e)), (λ g. same.0 ∙ (does.1 a).1 g)))

module _ {W V S E D X C : Type 0} (lib : Library W V S E D) (tracer : Option (TJaeger C))
    (c : Option (Dict (Stored X))) (db : Db) (dur : ℕ) where
  -- The database has rows for the statement, and the scanner makes `d` of them.
  abbrev pub Finds : Text × List V → D → Type 0
  Finds p d =
      (s : S) × (lib.query db.db p.0 p.1 ≡ returned (some s)) × (lib.scan s ≡ returned (some d))

  -- The database runs the statement, and the wanted number of its result is `n`.
  abbrev pub Changes : (E → Option ℕ) → Text × List V → ℕ → Type 0
  Changes result p n = (e : E) × (lib.exec db.db p.0 p.1 ≡ returned (some e)) × (result e ≡ some n)

  -- The rows that Query gave.
  scanned : S → Run X V S D
  scanned s = deferred (closes_rows s ∷ []) (answered scan_failed (lib.scan s) done)

  scanned-SameRun : (s : S) → SameRun (scanned s) (answered scan_failed (lib.scan s) done)
  unfolding scanned
  scanned-SameRun s =
      deferred-SameRun (closes_rows s ∷ []) (answered scan_failed (lib.scan s) done) refl

  scanned-ok :
      (s : S) (d : D) → ((scanned s).0 ≡ returned (ok d)) ↔ (lib.scan s ≡ returned (some d))
  unfolding done
  scanned-ok s d =
      let same = (scanned-SameRun s).0 in
      let answer = answered-ok {X = X} {V = V} {S = S} scan_failed (lib.scan s) done d in
      (
        (λ e. let (d', q, g) = answer.0 (sym same ∙ e) in ground (arith, q, g)),
        (λ q. same ∙ answer.1 (d, q, refl)),
      )

  sent-scanned : (s : S) → sent (scanned s).1 ≡ []
  sent-scanned s =
      (scanned-SameRun s).1
      ∙ sent-answered {X = X} {V = V} {S = S} scan_failed (lib.scan s) done
          (λ d. unfold done in refl)

  fetch_rows-Finds :
      (cond : Text) (vals : List V)
      → (sent {X = X} (fetch_rows lib tracer c db dur cond vals).1 ≡ (cond, vals) ∷ [])
        × ((d : D)
            → ((fetch_rows lib tracer c db dur cond vals).0 ≡ returned (ok d))
              ↔ Finds (cond, vals) d)
  unfolding fetch_rows emit scanned
  fetch_rows-Finds cond vals =
      let o = lib.query db.db cond vals in
      let k = λ (s : S). emit (opens_rows s) (scanned s) in
      (
        ap (λ q. (cond, vals) ∷ q) (sent-answered query_failed o k sent-scanned),
        λ d.
            let answer = answered-ok query_failed o k d in
            (
              (λ e. let (s, q, g) = answer.0 e in (s, q, (scanned-ok s d).0 g)),
              (λ (s, q, g). answer.1 (s, q, (scanned-ok s d).1 g)),
            ),
      )

  result_of-ok :
      (o : Option ℕ) (n : ℕ)
      → ((result_of {X = X} {V = V} {S = S} o).0 ≡ returned (ok n)) ↔ (o ≡ some n)
  unfolding result_of
  result_of-ok none n = ground arith
  result_of-ok (some m) n = ground arith

  sent-result_of : (o : Option ℕ) → sent (result_of {X = X} {V = V} {S = S} o).1 ≡ []
  unfolding result_of
  sent-result_of none = refl
  sent-result_of (some n) = refl

  exec_statement-Changes :
      (result : E → Option ℕ) (cond : Text) (vals : List V)
      → (sent {X = X} {S = S} (exec_statement lib tracer c db dur result cond vals).1
          ≡ (cond, vals) ∷ [])
        × ((n : ℕ)
            → ((exec_statement lib tracer c db dur result cond vals).0 ≡ returned (ok n))
              ↔ Changes result (cond, vals) n)
  unfolding exec_statement emit
  exec_statement-Changes result cond vals =
      let o = lib.exec db.db cond vals in
      let k = λ (e : E). result_of {X = X} {V = V} {S = S} (result e) in
      (
        ap (λ q. (cond, vals) ∷ q) (sent-answered exec_failed o k (λ e. sent-result_of (result e))),
        λ n.
            let answer = answered-ok exec_failed o k n in
            (
              (λ e. let (r, q, g) = answer.0 e in (r, q, (result_of-ok (result r) n).0 g)),
              (λ (r, q, g). answer.1 (r, q, (result_of-ok (result r) n).1 g)),
            ),
      )

  -- Where the tracer is there or the gin context is not: the database gets the statement that the
  -- builder made of the arguments, once, and no other; and GetList and NamedQuery succeed exactly
  -- with what the scanner makes of the rows that the database has for it, Insert and Update
  -- exactly with the last id and the number of rows of its result.
  pub methods-Does :
      (where_ values : W) (fields : List Text) (rows : List W) (query : Text)
      → IsTraced tracer c
      → Does
          (lib.build_select db.table where_ fields)
          Finds
          (get_list lib tracer c db dur where_ fields)
        × Does (lib.named_query query values) Finds (named_query lib tracer c db dur query values)
        × Does
            (lib.build_insert db.table rows)
            (Changes lib.last_insert_id)
            (insert lib tracer c db dur rows)
        × Does
            (lib.build_update db.table where_ values)
            (Changes lib.rows_affected)
            (update lib tracer c db dur where_ values)
  unfolding get_list insert update named_query
  methods-Does where_ values fields rows query traced = (
    method-Does tracer c dur (lit "GetList") (lib.build_select db.table where_ fields)
        (fetch_rows lib tracer c db dur) Finds traced fetch_rows-Finds,
    method-Does tracer c dur (lit "NamedQuery") (lib.named_query query values)
        (fetch_rows lib tracer c db dur) Finds traced fetch_rows-Finds,
    method-Does tracer c dur (lit "Insert") (lib.build_insert db.table rows)
        (exec_statement lib tracer c db dur lib.last_insert_id) (Changes lib.last_insert_id) traced
        (exec_statement-Changes lib.last_insert_id),
    method-Does tracer c dur (lit "Update") (lib.build_update db.table where_ values)
        (exec_statement lib tracer c db dur lib.rows_affected) (Changes lib.rows_affected) traced
        (exec_statement-Changes lib.rows_affected),
  )
