-- ===== src/Mysql/Query/Sent.antt =====
-- The statements that the methods of mysql/sql.go send, and the parts of a call that send none.
use mathlib.Core.List.{append-nil}
use motor.Base.{
  ℕ, Text, Dict, ◌≡◌, ◌≢◌, ◌↔◌, ◌⊎◌, refl, sym, ap, subst, ◌∙◌, inl, inr, Option, none, some, List,
  [], ◌∷◌, ◌++◌, ltb, Bool-cases,
}
use motor.Base.Outcome.{Outcome, returned, panicked}
use motor.Trace.{TJaeger, Stored, trace_ctx, get_trace_ctx}
use motor.Mysql.Query.{
  Error, ok, Effect, starts_span, finishes_span, queries, execs, opens_rows, closes_rows, logs_slow,
  Run, emit, deferred, answered, with_span, slow_log, slow_log_dur,
}

module _ {X V S : Type 0} where
  -- The statements that the database gets, with their arguments.
  abbrev pub sent : List (Effect X V S) → List (Text × List V)
  sent [] = []
  sent (starts_span x name ∷ es) = sent es
  sent (finishes_span name ∷ es) = sent es
  sent (queries db cond vals ∷ es) = (cond, vals) ∷ sent es
  sent (execs db cond vals ∷ es) = (cond, vals) ∷ sent es
  sent (opens_rows s ∷ es) = sent es
  sent (closes_rows s ∷ es) = sent es
  sent (logs_slow cond vals ∷ es) = sent es

  sent-append : (es fs : List (Effect X V S)) → sent (es ++ fs) ≡ sent es ++ sent fs
  sent-append [] fs = refl
  sent-append (starts_span x name ∷ es) fs = sent-append es fs
  sent-append (finishes_span name ∷ es) fs = sent-append es fs
  sent-append (queries db cond vals ∷ es) fs = ap (λ q. (cond, vals) ∷ q) (sent-append es fs)
  sent-append (execs db cond vals ∷ es) fs = ap (λ q. (cond, vals) ∷ q) (sent-append es fs)
  sent-append (opens_rows s ∷ es) fs = sent-append es fs
  sent-append (closes_rows s ∷ es) fs = sent-append es fs
  sent-append (logs_slow cond vals ∷ es) fs = sent-append es fs

-- The statements of an answer of the builder.
abbrev pub statements : {V : Type 0} → Outcome (Option (Text × List V)) → List (Text × List V)
statements panicked = []
statements (returned none) = []
statements (returned (some p)) = p ∷ []

-- The tracer is there where the gin context is.
abbrev pub IsTraced : {X C : Type 0} → Option (TJaeger C) → Option (Dict (Stored X)) → Type 0
IsTraced tracer c = (c ≡ none) ⊎ (tracer ≢ none)

pub stated :
    {B : Type 0} (p q : B)
    → ◌≡◌ {A = Outcome (Option B)} (returned (some p)) (returned (some q))
    → p ≡ q
stated p q e =
    ap
      (λ (o : Outcome (Option _)). elim o [
        | panicked ↦ p
        | returned none ↦ p
        | returned (some r) ↦ r
      ])
      e

pub sent-slow_log :
    (X S : Type 0) {V : Type 0} (cond : Text) (vals : List V) (dur : ℕ)
    → sent {X = X} {S = S} (slow_log cond vals dur) ≡ []
unfolding slow_log
sent-slow_log X S cond vals dur = elim (Bool-cases (ltb slow_log_dur dur)) [
  | inl e ↦ rw (e, slow_log) refl
  | inr e ↦ rw (e, slow_log) refl
]

module _ {X V S A : Type 0} where
  abbrev pub SameRun : Run X V S A → Run X V S A → Type 0
  SameRun r q = (r.0 ≡ q.0) × (sent r.1 ≡ sent q.1)

  pub deferred-SameRun :
      (last : List (Effect X V S)) (body : Run X V S A)
      → sent last ≡ []
      → SameRun (deferred last body) body
  unfolding deferred
  deferred-SameRun last (r, es) h =
      (refl, sent-append es last ∙ ap (λ q. sent es ++ q) h ∙ append-nil (sent es))

  pub with_span-SameRun :
      {C : Type 0} (tracer : Option (TJaeger C)) (c : Option (Dict (Stored X))) (name : Text)
      (body : Run X V S A)
      → IsTraced tracer c
      → SameRun (with_span tracer c name body) body
  unfolding with_span trace_ctx
  with_span-SameRun tracer none name body h = (refl, refl)
  with_span-SameRun none (some c) name body (inl e) = cc
  with_span-SameRun none (some c) name body (inr n) = absurd (n refl)
  with_span-SameRun (some t) (some c) name body h = go (get_trace_ctx c)
    where
      go :
          (o : Option X)
          → SameRun
              (elim (returned o) as (λ _. Run X V S A) [
                | panicked ↦ (panicked, [])
                | returned none ↦ body
                | returned (some x) ↦
                    emit (starts_span x name) (deferred (finishes_span name ∷ []) body)
              ])
              body
      go none = (refl, refl)
      go (some x) = unfold emit in deferred-SameRun (finishes_span name ∷ []) body refl

  pub answered-ok :
      {B : Type 0} (e : Error) (o : Outcome (Option B)) (k : B → Run X V S A) (a : A)
      → ((answered e o k).0 ≡ returned (ok a))
        ↔ ((b : B) × (o ≡ returned (some b)) × ((k b).0 ≡ returned (ok a)))
  unfolding answered
  answered-ok e panicked k a = ((λ q. cc), (λ (b, q, g). cc))
  answered-ok e (returned none) k a = ((λ q. cc), (λ (b, q, g). cc))
  answered-ok e (returned (some b)) k a = (
    (λ q. (b, refl, q)),
    (λ (b', q, g). subst (λ x. (k x).0 ≡ returned (ok a)) (sym (stated b b' q)) g),
  )

  pub sent-answered :
      {B : Type 0} (e : Error) (o : Outcome (Option B)) (k : B → Run X V S A)
      → ((b : B) → sent (k b).1 ≡ [])
      → sent (answered e o k).1 ≡ []
  unfolding answered
  sent-answered e panicked k h = refl
  sent-answered e (returned none) k h = refl
  sent-answered e (returned (some b)) k h = h b
