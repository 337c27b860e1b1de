-- ===== src/Tolerant/Tests.antt =====
-- Runs of tolerant.Init, and its theorems at concrete inputs.
use motor.Base.{
  ℕ, lit, ◌≡◌, refl, true, false, Option, some, [], ◌∷◌, arith, to_lower, lookup, insert, text_eq,
}
use motor.Base.Outcome.{panicked}
use motor.Conf.Storage
use motor.Conf.Storage.{store}
use motor.Conf.Watch
use motor.Conf.Watch.{Conf}
use motor.Conf.Settings
use motor.Tolerant.{
  qps, reject, error_count, BreakerRuleConf, SentinelConf, inits, loads_flow, loads_breaker,
  Library, entity_of, flow_rule_of, breaker_rule_of, get_conf, init,
}
use motor.Tolerant.Loads.{IsCut, breaker_rule_of-IsCut, Inits, init-Inits}

-- A breaker that stays open for fifty days.
abbrev breaker : BreakerRuleConf ℕ
breaker = record {
  enabled = true;
  min_request_amount = 50;
  threshold = 6;
  stat_interval = 1000000000;
  max_allowed_rt = 500000000;
  retry_timeout = 4320000000000000;
  resource = lit "motor_breaker";
  strategy = error_count;
}

abbrev settings : SentinelConf ℕ
settings = record {
  server = record { collect_interval_ms = 1000; app_name = lit "motor" };
  log = record {
    use_pid = true;
    max_file_count = 8;
    flush_interval = 1000000000;
    single_file_max_size = 52428800;
    log_dir = lit "/tmp";
  };
  flow_rule = record {
    enabled = true;
    count = 10;
    metric_type = qps;
    control_behavior = reject;
    resource = lit "motor_ratelimit";
  };
  breaker_rule = breaker;
}

-- Sentinel refuses rules of flow.
abbrev lib : Library ℕ
lib = record {
  decode = λ text. some settings;
  to_float = λ n. n;
  uint32_seconds = λ d. 1;
  accepts = λ c. elim c [ inits e ↦ true | loads_flow rules ↦ false | loads_breaker rules ↦ true ];
}

abbrev g : Option Conf
g = some (record {
  raw = [];
  content = store ((lit "sentinel.toml", record { raw = lit "x" }) ∷ []);
  watch_chs = [];
  chans = [];
})

init_refused : init lib g ≡ (
  panicked,
  inits (entity_of lib settings) ∷ loads_flow (flow_rule_of lib settings.flow_rule ∷ []) ∷ [],
)
unfolding init get_conf Settings.get Watch.get Storage.get Storage.load store
    Settings.unmarshal_toml Storage.raw lookup insert text_eq Storage.key_name to_lower
init_refused = refl

init-Inits_example : Inits lib (get_conf lib g) (init lib g)
init-Inits_example = init-Inits lib g

breaker_rule_of-IsCut_example :
    IsCut breaker.retry_timeout (breaker_rule_of lib breaker).retry_timeout_ms
    × IsCut breaker.stat_interval (breaker_rule_of lib breaker).stat_interval_ms
breaker_rule_of-IsCut_example = breaker_rule_of-IsCut lib breaker (omega arith) (omega arith)

retry_timeout_cut : (breaker_rule_of lib breaker).retry_timeout_ms ≡ 25032704
unfolding breaker_rule_of
retry_timeout_cut = refl
