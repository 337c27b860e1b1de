-- ===== src/Tolerant/Loads.antt =====
-- Which settings tolerant/ctype.go accepts, and what Init of tolerant/init.go gives to sentinel.
use motor.Base.{
  ℕ, ◌+◌, ◌*◌, ◌^◌, ◌≤◌, ◌<◌, Text, lit, ◌≡◌, ◌↔◌, refl, Bool, true, false, ◌&&◌, Option, none,
  some, List, [], ◌∷◌, ◌++◌, arith, text_eq_iff, to_lower, if◌then◌else◌,
}
use motor.Base.Outcome.{Outcome, returned, panicked}
use motor.Conf.Watch.{Conf}
use motor.Tolerant.{
  MetricType, qps, concurrency, ControlBehavior, reject, throttling, Strategy, slow_request_ratio,
  error_ratio, error_count, metric_type, control_behavior, strategy, BreakerRuleConf, SentinelConf,
  Call, inits, loads_flow, loads_breaker, Library, milliseconds, uint32_milliseconds, entity_of,
  flow_rule_of, breaker_rule_of, asks, load_breaker, load_flow, apply_conf, get_conf, init,
}

abbrev pub metric_name : MetricType → Text
metric_name qps = lit "qps"
metric_name concurrency = lit "concurrency"

abbrev pub behavior_name : ControlBehavior → Text
behavior_name reject = lit "reject"
behavior_name throttling = lit "throttling"

abbrev pub strategy_name : Strategy → Text
strategy_name slow_request_ratio = lit "slowrequestratio"
strategy_name error_ratio = lit "errorratio"
strategy_name error_count = lit "errorcount"

metric_type-name :
    (s : Text) (m : MetricType) → (metric_type s ≡ some m) ↔ (to_lower s ≡ metric_name m)
unfolding metric_type
metric_type-name s qps =
    ground
      (arith, text_eq_iff (to_lower s) (lit "qps"), text_eq_iff (to_lower s) (lit "concurrency"))
metric_type-name s concurrency =
    ground
      (arith, text_eq_iff (to_lower s) (lit "qps"), text_eq_iff (to_lower s) (lit "concurrency"))

control_behavior-name :
    (s : Text) (b : ControlBehavior)
    → (control_behavior s ≡ some b) ↔ (to_lower s ≡ behavior_name b)
unfolding control_behavior
control_behavior-name s reject =
    ground
      (arith, text_eq_iff (to_lower s) (lit "reject"), text_eq_iff (to_lower s) (lit "throttling"))
control_behavior-name s throttling =
    ground
      (arith, text_eq_iff (to_lower s) (lit "reject"), text_eq_iff (to_lower s) (lit "throttling"))

strategy-name : (s : Text) (t : Strategy) → (strategy s ≡ some t) ↔ (to_lower s ≡ strategy_name t)
unfolding strategy
strategy-name s slow_request_ratio = ground (
  arith,
  text_eq_iff (to_lower s) (lit "slowrequestratio"),
  text_eq_iff (to_lower s) (lit "errorratio"),
  text_eq_iff (to_lower s) (lit "errorcount"),
)
strategy-name s error_ratio = ground (
  arith,
  text_eq_iff (to_lower s) (lit "slowrequestratio"),
  text_eq_iff (to_lower s) (lit "errorratio"),
  text_eq_iff (to_lower s) (lit "errorcount"),
)
strategy-name s error_count = ground (
  arith,
  text_eq_iff (to_lower s) (lit "slowrequestratio"),
  text_eq_iff (to_lower s) (lit "errorratio"),
  text_eq_iff (to_lower s) (lit "errorcount"),
)

-- How many milliseconds a duration comes to as a uint32: all of them, rounded down, below 2 ^ 32 of them;
-- and at least one too few from there on.
abbrev pub IsCut : ℕ → ℕ → Type 0
IsCut d ms =
    (ms < 2 ^ 32)
    × (d < 2 ^ 32 * 1000000 → (ms * 1000000 ≤ d) × (d < (ms + 1) * 1000000))
    × (2 ^ 32 * 1000000 ≤ d → (ms + 1) * 1000000 ≤ d)

uint32_milliseconds-IsCut : (d : ℕ) → d < 2 ^ 63 → IsCut d (uint32_milliseconds d)
unfolding uint32_milliseconds milliseconds
uint32_milliseconds-IsCut d h = ground arith

-- UnmarshalText of the three settings takes their names, in any case, and no other text.
settings-name :
    (s : Text)
    → ((m : MetricType) → (metric_type s ≡ some m) ↔ (to_lower s ≡ metric_name m))
      × ((b : ControlBehavior) → (control_behavior s ≡ some b) ↔ (to_lower s ≡ behavior_name b))
      × ((t : Strategy) → (strategy s ≡ some t) ↔ (to_lower s ≡ strategy_name t))
settings-name s = (metric_type-name s, control_behavior-name s, strategy-name s)

-- Of a breaker rule whose retry timeout and statistics interval are not negative, the milliseconds
-- that sentinel gets for each are those of the duration, rounded down, where there are less than 2
-- ^ 32 of them, and at least one too few else.
pub breaker_rule_of-IsCut :
    {F : Type 0} (lib : Library F) (rule : BreakerRuleConf F)
    → rule.retry_timeout < 2 ^ 63
    → rule.stat_interval < 2 ^ 63
    → IsCut rule.retry_timeout (breaker_rule_of lib rule).retry_timeout_ms
      × IsCut rule.stat_interval (breaker_rule_of lib rule).stat_interval_ms
unfolding breaker_rule_of
breaker_rule_of-IsCut lib rule retry stat = (
  uint32_milliseconds-IsCut rule.retry_timeout retry,
  uint32_milliseconds-IsCut rule.stat_interval stat,
)

module _ {F : Type 0} (lib : Library F) where
  -- The calls that the settings ask for.
  abbrev pub calls_of : SentinelConf F → List (Call F)
  calls_of svc =
      inits (entity_of lib svc)
        ∷ (if svc.flow_rule.enabled
            then loads_flow (flow_rule_of lib svc.flow_rule ∷ []) ∷ []
            else [])
      ++ (if svc.breaker_rule.enabled
          then loads_breaker (breaker_rule_of lib svc.breaker_rule ∷ []) ∷ []
          else [])

  -- Calls up to the first that sentinel refuses, and whether it refuses none.
  unfoldable pub asked : List (Call F) → List (Call F)
  asked [] = []
  asked (c ∷ cs) = let rest = asked cs in c ∷ (if lib.accepts c then rest else [])

  unfoldable pub all_accepted : List (Call F) → Bool
  all_accepted [] = true
  all_accepted (c ∷ cs) = lib.accepts c && all_accepted cs

  abbrev pub ends : Bool → Outcome (Unit {0})
  ends true = returned tt
  ends false = panicked

  abbrev pub Inits : Outcome (Option (SentinelConf F)) → Outcome (Unit {0}) × List (Call F) → Type 0
  Inits panicked r = r ≡ (panicked, [])
  Inits (returned none) r = r ≡ (panicked, [])
  Inits (returned (some svc)) r =
      (r.0 ≡ ends (all_accepted (calls_of svc))) × (r.1 ≡ asked (calls_of svc))

  apply_conf-Inits : (o : Outcome (Option (SentinelConf F))) → Inits o (apply_conf lib o)
  unfolding apply_conf asks load_flow load_breaker asked all_accepted
  apply_conf-Inits panicked = refl
  apply_conf-Inits (returned none) = refl
  apply_conf-Inits (returned (some svc)) = ground arith

  -- Init panics with no call of sentinel where the file is missing or does not decode; else it
  -- makes the calls that the settings ask for, a rule only where it is enabled, in their order and
  -- up to the first that sentinel refuses, and panics exactly where it refuses one.
  pub init-Inits : (g : Option Conf) → Inits (get_conf lib g) (init lib g)
  unfolding init
  init-Inits g = apply_conf-Inits (get_conf lib g)
