-- ===== src/Tolerant.antt =====
-- tolerant/ctype.go and tolerant/init.go: the settings of sentinel, and what Init gives to it. A
-- time.Duration is the bits of its int64.
pub mod Loads
mod Tests
use motor.Base.{
  ℕ, ◌-◌, ◌/◌, ◌%◌, ◌^◌, Text, lit, Bool, true, false, Option, none, some, List, [], ◌∷◌, ◌++◌,
  text_eq, to_lower, ltb, if◌then◌else◌,
}
use motor.Base.Outcome.{Outcome, returned, panicked, ◌>>=◌}
use motor.Conf.Storage.{Value}
use motor.Conf.Watch.{Conf}
use motor.Conf.Settings
use motor.Conf.Settings.{unmarshal_toml}

-- The constants of sentinel's packages flow and circuitbreaker.
pub data MetricType : Type 0 where
  qps concurrency : MetricType

pub data ControlBehavior : Type 0 where
  reject throttling : ControlBehavior

pub data Strategy : Type 0 where
  slow_request_ratio error_ratio error_count : Strategy

-- The three UnmarshalText; `none` is an error, and leaves the variable as it is.
unfoldable pub metric_type : Text → Option MetricType
metric_type text =
    let str = to_lower text in
    if text_eq str (lit "qps")
    then some qps
    else if text_eq str (lit "concurrency")
    then some concurrency
    else none

unfoldable pub control_behavior : Text → Option ControlBehavior
control_behavior text =
    let str = to_lower text in
    if text_eq str (lit "reject")
    then some reject
    else if text_eq str (lit "throttling")
    then some throttling
    else none

unfoldable pub strategy : Text → Option Strategy
strategy text =
    let str = to_lower text in
    if text_eq str (lit "slowrequestratio")
    then some slow_request_ratio
    else if text_eq str (lit "errorratio")
    then some error_ratio
    else if text_eq str (lit "errorcount")
    then some error_count
    else none

-- A float64 is of type F.
pub record ServerConf : Type 0 where
  pub collect_interval_ms : ℕ
  pub app_name : Text

pub record LogConf : Type 0 where
  pub use_pid : Bool
  pub max_file_count : ℕ
  pub flush_interval : ℕ
  pub single_file_max_size : ℕ
  pub log_dir : Text

pub record FlowRuleConf : Type 0 where
  pub enabled : Bool
  pub count : ℕ
  pub metric_type : MetricType
  pub control_behavior : ControlBehavior
  pub resource : Text

pub record BreakerRuleConf (F : Type 0) : Type 0 where
  pub enabled : Bool
  pub min_request_amount : ℕ
  pub threshold : F
  pub stat_interval : ℕ
  pub max_allowed_rt : ℕ
  pub retry_timeout : ℕ
  pub resource : Text
  pub strategy : Strategy

pub record SentinelConf (F : Type 0) : Type 0 where
  pub server : ServerConf
  pub log : LogConf
  pub flow_rule : FlowRuleConf
  pub breaker_rule : BreakerRuleConf F

-- What InitWithConfig is given; the other fields are those of NewDefaultConfig.
pub record Entity : Type 0 where
  pub app_name : Text
  pub log_dir : Text
  pub use_pid : Bool
  pub single_file_max_size : ℕ
  pub max_file_count : ℕ
  pub flush_interval_sec : ℕ
  pub collect_interval_ms : ℕ

-- flow.Rule, its TokenCalculateStrategy being flow.Direct
pub record FlowRule (F : Type 0) : Type 0 where
  pub resource : Text
  pub control_behavior : ControlBehavior
  pub metric_type : MetricType
  pub count : F

pub record BreakerRule (F : Type 0) : Type 0 where
  pub resource : Text
  pub strategy : Strategy
  pub retry_timeout_ms : ℕ
  pub min_request_amount : ℕ
  pub stat_interval_ms : ℕ
  pub threshold : F
  pub max_allowed_rt_ms : ℕ

-- The calls of sentinel.
pub data Call (F : Type 0) : Type 0 where
  inits : Entity → Call F
  loads_flow : List (FlowRule F) → Call F
  loads_breaker : List (BreakerRule F) → Call F

-- Conversions to and from float64, and what sentinel answers, `false` for an error.
pub record Library (F : Type 0) : Type 0 where
  pub decode : Text → Option (SentinelConf F)
  -- float64(n) of a uint64
  pub to_float : ℕ → F
  -- uint32(d.Seconds())
  pub uint32_seconds : ℕ → ℕ
  pub accepts : Call F → Bool

-- Milliseconds: the int64's division, which rounds to zero.
unfoldable pub milliseconds : ℕ → ℕ
milliseconds d = if ltb d (2 ^ 63) then d / 1000000 else (2 ^ 64 - (2 ^ 64 - d) / 1000000) % 2 ^ 64

-- uint32(d.Milliseconds())
unfoldable pub uint32_milliseconds : ℕ → ℕ
unfolding milliseconds
uint32_milliseconds d = milliseconds d % 2 ^ 32

module _ {F : Type 0} (lib : Library F) where
  unfoldable pub entity_of : SentinelConf F → Entity
  entity_of svc = record {
    app_name = svc.server.app_name;
    log_dir = svc.log.log_dir;
    use_pid = svc.log.use_pid;
    single_file_max_size = svc.log.single_file_max_size;
    max_file_count = svc.log.max_file_count;
    flush_interval_sec = lib.uint32_seconds svc.log.flush_interval;
    collect_interval_ms = svc.server.collect_interval_ms;
  }

  unfoldable pub flow_rule_of : FlowRuleConf → FlowRule F
  flow_rule_of rule = record {
    resource = rule.resource;
    control_behavior = rule.control_behavior;
    metric_type = rule.metric_type;
    count = lib.to_float rule.count;
  }

  unfoldable pub breaker_rule_of : BreakerRuleConf F → BreakerRule F
  unfolding uint32_milliseconds milliseconds
  breaker_rule_of rule = record {
    resource = rule.resource;
    strategy = rule.strategy;
    retry_timeout_ms = uint32_milliseconds rule.retry_timeout;
    min_request_amount = rule.min_request_amount;
    stat_interval_ms = uint32_milliseconds rule.stat_interval;
    threshold = rule.threshold;
    max_allowed_rt_ms = milliseconds rule.max_allowed_rt;
  }

  -- A call of sentinel; an error panics.
  asks :
      Call F
      → List (Call F)
      → (List (Call F) → Outcome (Unit {0}) × List (Call F))
      → Outcome (Unit {0}) × List (Call F)
  asks c made next =
      let made' = made ++ (c ∷ []) in if lib.accepts c then next made' else (panicked, made')

  load_breaker : SentinelConf F → List (Call F) → Outcome (Unit {0}) × List (Call F)
  unfolding asks breaker_rule_of
  load_breaker svc made =
      if svc.breaker_rule.enabled
      then asks (loads_breaker (breaker_rule_of svc.breaker_rule ∷ [])) made
          (λ done. (returned tt, done))
      else (returned tt, made)

  load_flow : SentinelConf F → List (Call F) → Outcome (Unit {0}) × List (Call F)
  unfolding asks flow_rule_of load_breaker
  load_flow svc made =
      if svc.flow_rule.enabled
      then asks (loads_flow (flow_rule_of svc.flow_rule ∷ [])) made (load_breaker svc)
      else load_breaker svc made

  apply_conf : Outcome (Option (SentinelConf F)) → Outcome (Unit {0}) × List (Call F)
  unfolding asks entity_of load_flow
  apply_conf panicked = (panicked, [])
  apply_conf (returned none) = (panicked, [])
  apply_conf (returned (some svc)) = asks (inits (entity_of svc)) [] (load_flow svc)

  -- getConf, which panics on an error
  unfoldable pub get_conf : Option Conf → Outcome (Option (SentinelConf F))
  get_conf g = do v ← Settings.get g (lit "sentinel.toml"); unmarshal_toml lib.decode v

  -- Init, and the calls that it made of sentinel
  unfoldable pub init : Option Conf → Outcome (Unit {0}) × List (Call F)
  unfolding apply_conf
  init g = apply_conf (get_conf g)
