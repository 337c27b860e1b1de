-- ===== src/Http/Server/Kept.antt =====
-- What a server leaves as it was when the handlers do, and the one line that it logs.
use motor.Base.{
  ℕ, Text, ◌+◌, ◌-◌, Bool, true, false, ◌≡◌, refl, ap, ◌∙◌, inl, inr, List, [], ◌∷◌, ◌++◌, arith,
  text_eq, Bool-cases, Option, none, some,
}
use motor.Http.Request.{
  Line, access, catch_panic, inject_failed, Ending, done, panics, Request, Handler, Library,
  abort_with_status,
}
use motor.Http.Guard.{broken_pipe, recovered, caught, ratelimit, exit}
use motor.Http.Report.{
  Vectors, metrics, traced, context_of, count_request, observe, access_of, access_log, with_query,
}
use motor.Http.Server.{Added, adds_metrics, adds_ratelimit, Setup, server, chain, middlewares}
use motor.Http.Server.Stack.{begun, with_spans, behind, answer, server_lem}

module _ {S : Type 0} where
  -- A handler that leaves the entries as it found them, or panics with them so.
  abbrev pub IsBalanced : Handler S → Type 0
  IsBalanced next = (c : Request S) → (next c).1.entries ≡ c.entries

  recovered-entries : (x : Ending × Request S) → (recovered x).entries ≡ x.1.entries
  unfolding recovered caught abort_with_status
  recovered-entries (done, c) = refl
  recovered-entries (panics p, c) = elim (Bool-cases (broken_pipe p)) [
    | inl e ↦ rw e refl
    | inr e ↦ rw e refl
  ]

  count_request-entries :
      (vs : Option Vectors) (start : ℕ) (x : Ending × Request S)
      → (count_request vs start x).1.entries ≡ x.1.entries
  unfolding count_request observe
  count_request-entries vs start (panics p, c) = refl
  count_request-entries none start (done, c) = refl
  count_request-entries (some v) start (done, c) = elim (Bool-cases (v.accepts c.path)) [
    | inl e ↦ rw (e, count_request) refl
    | inr e ↦ rw (e, count_request) refl
  ]

  metrics-IsBalanced :
      (vs : Option Vectors) (path : Text) (next : Handler S)
      → IsBalanced next
      → IsBalanced (metrics vs path next)
  unfolding metrics
  metrics-IsBalanced vs path next b c = elim (Bool-cases (text_eq c.path path)) [
    | inl e ↦ rw (e, metrics) (b c)
    | inr e ↦ rw (e, metrics) (count_request-entries vs c.now (next c) ∙ b c)
  ]

  ratelimit-IsBalanced :
      (enabled : Bool) (enter : Request S → Bool) (next : Handler S)
      → IsBalanced next
      → IsBalanced (ratelimit enabled enter next)
  unfolding ratelimit exit abort_with_status
  ratelimit-IsBalanced true enter next b c = elim (Bool-cases (enter c)) [
    | inl e ↦ rw (e, ratelimit) (omega (arith, b (record c { entries = c.entries + 1 })))
    | inr e ↦ rw (e, ratelimit) refl
  ]
  ratelimit-IsBalanced false enter next b c = b c

  behind-IsBalanced :
      (s : Setup S) (xs : List Added) (next : Handler S)
      → IsBalanced next
      → IsBalanced (behind s xs next)
  unfolding chain middlewares
  behind-IsBalanced s [] next b = b
  behind-IsBalanced s (adds_metrics ∷ xs) next b =
      metrics-IsBalanced s.vectors s.default_path (behind s xs next) (behind-IsBalanced s xs next b)
  behind-IsBalanced s (adds_ratelimit ∷ xs) next b =
      ratelimit-IsBalanced s.enabled s.enter (behind s xs next) (behind-IsBalanced s xs next b)

  begun-entries : (lib : Library S) (c : Request S) → (begun lib c).entries ≡ c.entries
  unfolding traced
  begun-entries lib c = elim (Bool-cases lib.registered) [ inl e ↦ rw e refl | inr e ↦ rw e refl ]

  -- Behind a DefaultServer with Metrics and Ratelimit added in any order and number, no sentinel
  -- entry is left over, whether a request passes, is refused or panics, if the handlers leave
  -- none.
  pub server-IsBalanced :
      (s : Setup S) (next : Handler S) (c : Request S)
      → IsBalanced next
      → (server s next c).1.entries ≡ c.entries
  unfolding answer access_of
  server-IsBalanced s next c b =
      let inner = behind s s.added next (begun s.lib c) in
      ap (λ x. x.1.entries) (server_lem s next c)
      ∙ recovered-entries (with_spans s.lib c inner)
      ∙ behind-IsBalanced s s.added next b (begun s.lib c)
      ∙ begun-entries s.lib c

abbrev is_access : Line → ℕ
is_access (access text path latency errors) = 1
is_access (catch_panic p) = 0
is_access (inject_failed ip path method) = 0

-- The access logs among the lines.
unfoldable pub accesses : List Line → ℕ
accesses [] = 0
accesses (l ∷ ls) = is_access l + accesses ls

accesses_append : (ls ms : List Line) → accesses (ls ++ ms) ≡ accesses ls + accesses ms
unfolding accesses
accesses_append [] ms = omega arith
accesses_append (l ∷ ls) ms = omega (arith, accesses_append ls ms)

module _ {S : Type 0} where
  -- A handler that writes no access log.
  abbrev pub IsQuiet : Handler S → Type 0
  IsQuiet next = (c : Request S) → accesses (next c).1.logs ≡ accesses c.logs

  abbrev lines : Request S → ℕ
  lines c = accesses c.logs

  recovered-lines : (x : Ending × Request S) → lines (recovered x) ≡ lines x.1
  unfolding recovered caught abort_with_status accesses
  recovered-lines (done, c) = refl
  recovered-lines (panics p, c) = elim (Bool-cases (broken_pipe p)) [
    | inl e ↦ rw e (omega (arith, accesses_append c.logs (catch_panic p ∷ [])))
    | inr e ↦ rw e (omega (arith, accesses_append c.logs (catch_panic p ∷ [])))
  ]

  count_request-logs :
      (vs : Option Vectors) (start : ℕ) (x : Ending × Request S)
      → (count_request vs start x).1.logs ≡ x.1.logs
  unfolding count_request observe
  count_request-logs vs start (panics p, c) = refl
  count_request-logs none start (done, c) = refl
  count_request-logs (some v) start (done, c) = elim (Bool-cases (v.accepts c.path)) [
    | inl e ↦ rw (e, count_request) refl
    | inr e ↦ rw (e, count_request) refl
  ]

  metrics-IsQuiet :
      (vs : Option Vectors) (path : Text) (next : Handler S)
      → IsQuiet next
      → IsQuiet (metrics vs path next)
  unfolding metrics
  metrics-IsQuiet vs path next q c = elim (Bool-cases (text_eq c.path path)) [
    | inl e ↦ rw (e, metrics) (q c)
    | inr e ↦ rw (e, metrics) (ap accesses (count_request-logs vs c.now (next c)) ∙ q c)
  ]

  ratelimit-IsQuiet :
      (enabled : Bool) (enter : Request S → Bool) (next : Handler S)
      → IsQuiet next
      → IsQuiet (ratelimit enabled enter next)
  unfolding ratelimit exit abort_with_status
  ratelimit-IsQuiet true enter next q c = elim (Bool-cases (enter c)) [
    | inl e ↦ rw (e, ratelimit) (q (record c { entries = c.entries + 1 }))
    | inr e ↦ rw (e, ratelimit) refl
  ]
  ratelimit-IsQuiet false enter next q c = q c

  behind-IsQuiet :
      (s : Setup S) (xs : List Added) (next : Handler S) → IsQuiet next → IsQuiet (behind s xs next)
  unfolding chain middlewares
  behind-IsQuiet s [] next q = q
  behind-IsQuiet s (adds_metrics ∷ xs) next q =
      metrics-IsQuiet s.vectors s.default_path (behind s xs next) (behind-IsQuiet s xs next q)
  behind-IsQuiet s (adds_ratelimit ∷ xs) next q =
      ratelimit-IsQuiet s.enabled s.enter (behind s xs next) (behind-IsQuiet s xs next q)

  traced-lines : (lib : Library S) (c : Request S) → lines (traced lib c) ≡ lines c
  unfolding traced accesses
  traced-lines lib c = elim (Bool-cases (lib.inject (context_of lib c).span).1) [
    | inl e ↦
        rw e
          (omega (arith, accesses_append c.logs (inject_failed c.client_ip c.path c.method ∷ [])))
    | inr e ↦ rw e refl
  ]

  begun-lines : (lib : Library S) (c : Request S) → lines (begun lib c) ≡ lines c
  unfolding traced
  begun-lines lib c = elim (Bool-cases lib.registered) [
    | inl e ↦ rw e (traced-lines lib c)
    | inr e ↦ rw e refl
  ]

  -- What a server logs of a request that came as `c` and is answered as `d`: one access log, last,
  -- which is of the answer.
  abbrev pub Logs : Setup S → Request S → Request S → Type 0
  Logs s c d =
      (before : List Line) × (d.logs
        ≡ before
          ++ (access (access_log s.lib d) (with_query c.path c.raw_query) (d.now - c.now) d.errors
              ∷ []))
      × (accesses before ≡ accesses c.logs)

  -- Of every request, whether it passes, is refused or panics, a server logs one access log, after
  -- all that its handlers log, of the request as it is answered, if the handlers log none of their
  -- own.
  pub server-Logs :
      (s : Setup S) (next : Handler S) (c : Request S) → IsQuiet next → Logs s c (server s next c).1
  unfolding answer access_of access_log
  server-Logs s next c q =
      let inner = with_spans s.lib c (behind s s.added next (begun s.lib c)) in
      rw (server_lem s next c) (
        (recovered inner).logs,
        refl,
        recovered-lines inner
            ∙ behind-IsQuiet s s.added next q (begun s.lib c)
            ∙ begun-lines s.lib c,
      )
