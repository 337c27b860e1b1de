-- ===== src/Mysql/Query.antt =====
-- GetList, GetRow, Insert, Update, NamedQuery and slowLog of mysql/sql.go, with what they do outside.
-- The builder, the database and the scanner are arguments; each may panic.
pub mod Tidy
pub mod Sent
pub mod Answers
pub mod Untraced
mod Tests
use motor.Base.{
  ℕ, Text, lit, Dict, Bool, true, false, Option, none, some, List, [], ◌∷◌, ◌++◌, ltb,
  if◌then◌else◌,
}
use motor.Base.Outcome.{Outcome, returned, panicked}
use motor.Mysql.Types.{Handle}
use motor.Mysql.Conn.{Db}
use motor.Trace.{TJaeger, Stored, trace_ctx}

-- 300 * time.Millisecond
abbrev pub slow_log_dur : ℕ
slow_log_dur = 300000000

-- What went wrong, as GetRow wraps it, too.
pub data Error : Type 0 where
  build_failed query_failed scan_failed exec_failed : Error
  result_failed : Error
  with_message : Error → Error

pub data Result (A : Type 0) : Type 0 where
  ok : A → Result A
  err : Error → Result A

-- What a call does outside: spans, with what they are children of, statements, rows and the log.
pub data Effect (X V S : Type 0) : Type 0 where
  starts_span : X → Text → Effect X V S
  finishes_span : Text → Effect X V S
  queries : Handle → Text → List V → Effect X V S
  execs : Handle → Text → List V → Effect X V S
  opens_rows : S → Effect X V S
  closes_rows : S → Effect X V S
  logs_slow : Text → List V → Effect X V S

-- W are the maps with the conditions and the values of columns, V the arguments of a statement, S
-- the rows, E the results of Exec, D what is scanned. `none` is an error.
pub record Library (W V S E D : Type 0) : Type 0 where
  pub build_select : Text → W → List Text → Outcome (Option (Text × List V))
  pub build_insert : Text → List W → Outcome (Option (Text × List V))
  pub build_update : Text → W → W → Outcome (Option (Text × List V))
  pub named_query : Text → W → Outcome (Option (Text × List V))
  pub query : Handle → Text → List V → Outcome (Option S)
  pub exec : Handle → Text → List V → Outcome (Option E)
  pub scan : S → Outcome (Option D)
  pub last_insert_id : E → Option ℕ
  pub rows_affected : E → Option ℕ

-- How a call ends, and what it does, in order.
abbrev pub Run : Type 0 → Type 0 → Type 0 → Type 0 → Type 0
Run X V S A = Outcome (Result A) × List (Effect X V S)

module _ {X V S A : Type 0} where
  unfoldable pub emit : Effect X V S → Run X V S A → Run X V S A
  emit e (r, es) = (r, e ∷ es)

  -- A deferred call runs at the end, on a panic too.
  unfoldable pub deferred : List (Effect X V S) → Run X V S A → Run X V S A
  deferred last (r, es) = (r, es ++ last)

  -- What a library's answer comes to, `none` being `e`.
  unfoldable pub answered :
      {B : Type 0} → Error → Outcome (Option B) → (B → Run X V S A) → Run X V S A
  answered e panicked k = (panicked, [])
  answered e (returned none) k = (returned (err e), [])
  answered e (returned (some b)) k = k b

  -- The first lines of each method: a span, where the gin context has a trace.
  unfoldable pub with_span :
      {C : Type 0}
      → Option (TJaeger C)
      → Option (Dict (Stored X))
      → Text
      → Run X V S A
      → Run X V S A
  unfolding trace_ctx emit deferred
  with_span tracer none name body = body
  with_span tracer (some c) name body = elim (trace_ctx tracer c) [
    | panicked ↦ (panicked, [])
    | returned none ↦ body
    | returned (some x) ↦ emit (starts_span x name) (deferred (finishes_span name ∷ []) body)
  ]

-- `dur` is the time since the statement was built.
unfoldable pub slow_log : {X V S : Type 0} → Text → List V → ℕ → List (Effect X V S)
slow_log cond vals dur = if ltb slow_log_dur dur then logs_slow cond vals ∷ [] else []

module _ {X V S A : Type 0} where
  -- From `now := time.Now()` on.
  unfoldable pub timed : ℕ → (Text → List V → Run X V S A) → Text × List V → Run X V S A
  unfolding slow_log deferred
  timed dur k (cond, vals) = deferred (slow_log cond vals dur) (k cond vals)

  -- What the four methods have in common: a span, the builder's answer, and the use of its statement.
  unfoldable pub method :
      {C : Type 0}
      → Option (TJaeger C)
      → Option (Dict (Stored X))
      → ℕ
      → Text
      → Outcome (Option (Text × List V))
      → (Text → List V → Run X V S A)
      → Run X V S A
  unfolding with_span answered timed
  method tracer c dur name built k =
      with_span tracer c name (answered build_failed built (timed dur k))

done : {X V S A : Type 0} → A → Run X V S A
done a = (returned (ok a), [])

-- `return result.LastInsertId()`, and of RowsAffected: its error is passed on as it is.
result_of : {X V S : Type 0} → Option ℕ → Run X V S ℕ
result_of none = (returned (err result_failed), [])
result_of (some n) = (returned (ok n), [])

-- The methods of a DB, over the gin context `c` that it holds; `dur` is as in `slow_log`.
module _ {W V S E D X C : Type 0} (lib : Library W V S E D) (tracer : Option (TJaeger C))
    (c : Option (Dict (Stored X))) (db : Db) (dur : ℕ) where
  -- Query and Scan
  unfoldable pub fetch_rows : Text → List V → Run X V S D
  unfolding emit deferred answered done
  fetch_rows cond vals = emit (queries db.db cond vals) (
      answered query_failed (lib.query db.db cond vals) (λ (rows : S).
        emit (opens_rows rows)
          (deferred (closes_rows rows ∷ []) (answered scan_failed (lib.scan rows) done))))

  unfoldable pub exec_statement : (E → Option ℕ) → Text → List V → Run X V S ℕ
  unfolding emit answered result_of
  exec_statement result cond vals =
      emit (execs db.db cond vals)
        (answered exec_failed (lib.exec db.db cond vals) (λ (e : E). result_of (result e)))

  unfoldable pub get_list : W → List Text → Run X V S D
  unfolding method fetch_rows
  get_list where_ fields =
      method tracer c dur (lit "GetList") (lib.build_select db.table where_ fields) fetch_rows

  unfoldable pub insert : List W → Run X V S ℕ
  unfolding method exec_statement
  insert rows =
      method tracer c dur (lit "Insert") (lib.build_insert db.table rows)
        (exec_statement lib.last_insert_id)

  unfoldable pub update : W → W → Run X V S ℕ
  unfolding method exec_statement
  update where_ values =
      method tracer c dur (lit "Update") (lib.build_update db.table where_ values)
        (exec_statement lib.rows_affected)

  unfoldable pub named_query : Text → W → Run X V S D
  unfolding method fetch_rows
  named_query query values =
      method tracer c dur (lit "NamedQuery") (lib.named_query query values) fetch_rows

  wrapped : Run X V S D → Run X V S D
  wrapped (returned (err e), es) = (returned (err (with_message e)), es)
  wrapped (r, es) = (r, es)

  unfoldable pub get_row : W → List Text → Run X V S D
  unfolding get_list wrapped
  get_row where_ fields = wrapped (get_list where_ fields)
