-- ===== src/Metrics/Tests.antt =====
-- A registry that takes each name once: the second Init of a namespace panics.
use motor.Base.{
  ◌≡◌, refl, Text, lit, Option, none, some, List, [], ◌∷◌, ◌++◌, Bool, true, false, text_eq,
  if◌then◌else◌,
}
use motor.Metrics.{Collector, State, must_register, init}

abbrev has_name : Text → List Text → Bool
has_name name [] = false
has_name name (n ∷ ns) = if text_eq n name then true else has_name name ns

abbrev register : Collector → List Text → Option (List Text)
register c names =
    if has_name (c.namespace ++ c.name) names then none else some ((c.namespace ++ c.name) ∷ names)

abbrev fresh : State (List Text)
fresh = record { req_cnt = none; req_dur = none; req_err = none; registry = [] }

first_init : (init register (lit "a_") fresh).0 ≡ true
unfolding init must_register text_eq
first_init = refl

second_init : (init register (lit "a_") (init register (lit "a_") fresh).1).0 ≡ false
unfolding init must_register text_eq
second_init = refl
