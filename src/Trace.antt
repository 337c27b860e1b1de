-- ===== src/Trace.antt =====
-- trace/client.go and trace/jaeger.go: the tracer of the process, and the trace of a request.
-- jaeger-client-go is an argument.
use motor.Base.{
  ℕ, Text, lit, Dict, Bool, Option, none, some, lookup, insert, lookup-insert, text_eq_refl, ◌≡◌,
  refl, ◌==◌, if◌then◌else◌,
}
use motor.Base.Outcome.{Outcome, returned, panicked, ◌>>=◌}
use motor.Conf.Toml.{Codec}
use motor.Conf.Watch.{Conf}
use motor.Conf.Settings.{open_file, section_of}

abbrev pub tracer_ctx_key : Text
tracer_ctx_key = lit "tracer_ctx"

abbrev pub type_jaeger : ℕ
type_jaeger = 0

abbrev pub type_zipkin : ℕ
type_zipkin = 1

pub record TJaeger (C : Type 0) : Type 0 where
  pub service_name : Text
  pub closer : C

-- What the libraries do: toml.Unmarshal into the two settings, and InitGlobalTracer.
pub record Library (S R C : Type 0) : Type 0 where
  pub decode_sampler : Text → Option S
  pub decode_reporter : Text → Option R
  pub init_global_tracer : Text → S → R → Option C

-- An error panics.
unfoldable pub required : {A : Type 0} → Option A → Outcome A
required none = panicked
required (some a) = returned a

module _ {V S R C : Type 0} (codec : Codec V) (lib : Library S R C) (g : Option Conf) where
  -- newJaeger with the init of its tracer
  unfoldable pub new_jaeger : Text → Outcome (TJaeger C)
  unfolding required open_file section_of
  new_jaeger sn = do
    st ← open_file codec g (lit "jaeger.toml")
    sampler ← section_of (lit "Sampler") lib.decode_sampler st
    s ← required sampler
    reporter ← section_of (lit "Reporter") lib.decode_reporter st
    r ← required reporter
    closer ← required (lib.init_global_tracer sn s r)
    returned (record { service_name = sn; closer = closer })

  -- What Init returns, and `_Trace` after it.
  create_trace : ℕ → Text → Outcome (Option (TJaeger C) × Option (TJaeger C))
  unfolding new_jaeger
  create_trace typ sn =
      if typ == type_jaeger
      then (do t ← new_jaeger sn; returned (some t, some t))
      else if typ == type_zipkin
      then returned (none, none)
      else panicked

  unfoldable pub init :
      Option (TJaeger C) → ℕ → Text → Outcome (Option (TJaeger C) × Option (TJaeger C))
  unfolding create_trace
  init (some t) typ sn = returned (some t, some t)
  init none typ sn = create_trace typ sn

-- A value of a gin context, by whether it is a context.Context.
pub data Stored (X : Type 0) : Type 0 where
  context_value : X → Stored X
  other_value : ℕ → Stored X

-- A span's context, by whether it is jaeger's, whose TraceID has a text.
pub data SpanContext : Type 0 where
  jaeger_context : Text → SpanContext
  other_context : SpanContext

as_context : {X : Type 0} → Option (Stored X) → Option X
as_context none = none
as_context (some (context_value x)) = some x
as_context (some (other_value v)) = none

-- GetTraceCtx of TJaeger
unfoldable pub get_trace_ctx : {X : Type 0} → Dict (Stored X) → Option X
unfolding as_context
get_trace_ctx c = as_context (lookup tracer_ctx_key c)

pub get_trace_ctx-insert :
    {X : Type 0} (x : X) (c : Dict (Stored X))
    → get_trace_ctx (insert tracer_ctx_key (context_value x) c) ≡ some x
unfolding get_trace_ctx
get_trace_ctx-insert x c =
    rw
      (lookup-insert tracer_ctx_key tracer_ctx_key (context_value x) c, text_eq_refl tracer_ctx_key)
      refl

trace_id_of : SpanContext → Option Text
trace_id_of (jaeger_context id) = some id
trace_id_of other_context = none

module _ {C : Type 0} where
  -- The package functions call `_Trace`, a nil interface until Init has made a tracer.
  unfoldable pub trace_ctx :
      {X : Type 0} → Option (TJaeger C) → Dict (Stored X) → Outcome (Option X)
  trace_ctx none c = panicked
  trace_ctx (some t) c = returned (get_trace_ctx c)

  -- GetTraceID of the package and of TJaeger
  unfoldable pub get_trace_id : Option (TJaeger C) → SpanContext → Outcome (Option Text)
  unfolding trace_id_of
  get_trace_id none span = panicked
  get_trace_id (some t) span = returned (trace_id_of span)

  -- Close, with what the closer does, `false` for an error
  unfoldable pub close : (C → Bool) → Option (TJaeger C) → Outcome Bool
  close closes none = panicked
  close closes (some t) = returned (closes t.closer)
