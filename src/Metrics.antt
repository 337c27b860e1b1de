-- ===== src/Metrics.antt =====
-- metrics/metrics.go: the vectors that Metrics of http/ reports to, and their registration. Registering
-- one, the only call of prometheus, is an argument.
mod Tests
use motor.Base.{ℕ, Text, lit, ◌≡◌, Bool, true, false, Option, none, some, List, [], ◌∷◌}

-- The options of a counter or a histogram, with the labels. The buckets are in tenths of a
-- millisecond; a counter has none.
pub record Collector : Type 0 where
  pub namespace : Text
  pub name : Text
  pub help : Text
  pub buckets : List ℕ
  pub labels : List Text

-- The variables of the package, and prometheus' default registry.
pub record State (R : Type 0) : Type 0 where
  pub req_cnt : Option Collector
  pub req_dur : Option Collector
  pub req_err : Option Collector
  pub registry : R

abbrev pub default_path : Text
default_path = lit "/metrics"

counter_of : Text → Text → Text → Collector
counter_of namespace name help = record {
  namespace = namespace;
  name = name;
  help = help;
  buckets = [];
  labels = lit "path" ∷ lit "code" ∷ [];
}

histogram_of : Text → Collector
histogram_of namespace = record {
  namespace = namespace;
  name = lit "duration_ms";
  help = lit "http client requests duration(ms)";
  buckets = 5 ∷ 10 ∷ 20 ∷ 50 ∷ 100 ∷ [];
  labels = lit "path" ∷ [];
}

module _ {R : Type 0} (register : Collector → R → Option R) where
  -- prometheus.MustRegister: `false` is the panic at the first that cannot be registered.
  unfoldable pub must_register : List Collector → R → Bool × R
  must_register [] r = (true, r)
  must_register (c ∷ cs) r = elim (register c r) [
    | none ↦ (false, r)
    | some r' ↦ must_register cs r'
  ]

  -- Init, with `false` for a panic; the variables are set before it.
  unfoldable pub init : Text → State R → Bool × State R
  unfolding must_register counter_of histogram_of
  init namespace s =
      let cnt = counter_of namespace (lit "requests_total") (lit "http client requests count") in
      let dur = histogram_of namespace in
      let failed =
        counter_of namespace (lit "requests_errcode_total")
          (lit "http client error requests count") in
      let (done, r) = must_register (cnt ∷ dur ∷ failed ∷ []) s.registry in
      (done, record { req_cnt = some cnt; req_dur = some dur; req_err = some failed; registry = r })
