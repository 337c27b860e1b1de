-- ===== src/Http/Guard.antt =====
-- http/recovery.go and http/ratelimit.go: middleware that answers in the handlers' place.
use motor.Base.{
  ◌+◌, ◌-◌, Text, lit, Bool, true, false, ◌||◌, [], ◌∷◌, ◌++◌, has_prefix, to_lower, if◌then◌else◌,
}
use motor.Http.Request.{
  Panic, syscall_error, other_panic, nil_pointer, label_error, Ending, done, panics, catch_panic,
  Request, Middleware, abort_with_status,
}

-- strings.Contains
unfoldable pub contains : Text → Text → Bool
contains [] t = has_prefix [] t
contains (b ∷ s) t = let rest = contains s t in if has_prefix (b ∷ s) t then true else rest

unfoldable pub broken_pipe : Panic → Bool
unfolding contains
broken_pipe (syscall_error text) =
    contains (to_lower text) (lit "broken pipe")
    || contains (to_lower text) (lit "connection reset by peer")
broken_pipe (other_panic n) = false
broken_pipe nil_pointer = false
broken_pipe label_error = false

module _ {S : Type 0} where
  -- The log has the panic, with the request and the stack. A broken pipe gets no status.
  unfoldable pub caught : Panic → Request S → Request S
  unfolding broken_pipe abort_with_status
  caught p c =
      let d : Request S = record c { logs = c.logs ++ (catch_panic p ∷ []) } in
      if broken_pipe p
      then record d { errors = c.errors ++ (p ∷ []); aborted = true }
      else abort_with_status 500 d

  unfoldable pub recovered : Ending × Request S → Request S
  unfolding caught
  recovered (done, c) = c
  recovered (panics p, c) = caught p c

  unfoldable pub recovery : Middleware S
  unfolding recovered
  recovery next c = (done, recovered (next c))

  unfoldable pub exit : Ending × Request S → Ending × Request S
  exit (e, c) = (e, record c { entries = c.entries - 1 })

  -- `enter` is sentinel.Entry; the deferred Exit runs on a panic too.
  unfoldable pub ratelimit : Bool → (Request S → Bool) → Middleware S
  unfolding exit abort_with_status
  ratelimit enabled enter next c =
      if enabled
      then (if enter c
          then exit (next (record c { entries = c.entries + 1 }))
          else (done, abort_with_status 429 c))
      else next c
