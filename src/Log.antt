-- ===== src/Log.antt =====
-- log/log.go: the level and the configuration that the logger of the process is built with. The TOML
-- library and zap are arguments.
use motor.Base.{
  Text, lit, ◌||◌, Option, none, some, List, is_empty, text_eq, to_lower, if◌then◌else◌,
}
use motor.Base.Outcome.{Outcome, returned, panicked, ◌>>=◌}
use motor.Conf.Toml.{Codec}
use motor.Conf.Watch.{Conf}
use motor.Conf.Settings.{section}

-- zapcore.Level
pub data Level : Type 0 where
  debug_level info_level warn_level error_level dpanic_level panic_level fatal_level : Level

-- M are the initial fields.
pub record LogConf (M : Type 0) : Type 0 where
  pub level : Text
  pub encoding : Text
  pub output_paths : List Text
  pub err_output_paths : List Text
  pub initial_fields : M

-- zap.Config; its other fields are constants.
pub record ZapConfig (M : Type 0) : Type 0 where
  pub level : Level
  pub encoding : Text
  pub output_paths : List Text
  pub error_output_paths : List Text
  pub initial_fields : M

unfoldable pub get_level : Text → Outcome Level
get_level level =
    let s = to_lower level in
    if text_eq s (lit "debug")
    then returned debug_level
    else if text_eq s (lit "info") || is_empty s
    then returned info_level
    else if text_eq s (lit "warn")
    then returned warn_level
    else if text_eq s (lit "error")
    then returned error_level
    else if text_eq s (lit "dpanic")
    then returned dpanic_level
    else if text_eq s (lit "panic")
    then returned panic_level
    else if text_eq s (lit "fatal")
    then returned fatal_level
    else panicked

-- An error panics.
must : {A : Type 0} → Option A → Outcome A
must none = panicked
must (some a) = returned a

config_of : {M : Type 0} → LogConf M → Level → ZapConfig M
config_of cfg level = record {
  level = level;
  encoding = cfg.encoding;
  output_paths = cfg.output_paths;
  error_output_paths = cfg.err_output_paths;
  initial_fields = cfg.initial_fields;
}

module _ {V M : Type 0} (codec : Codec V) (decode : Text → Option (LogConf M)) where
  unfoldable pub get_conf : Option Conf → Outcome (LogConf M)
  unfolding must
  get_conf g = do cfg ← section codec g (lit "application.toml") (lit "Log") decode; must cfg

  -- Init: the logger that becomes the global one; `build` is Build of a configuration.
  unfoldable pub init : {L : Type 0} → (ZapConfig M → Option L) → Option Conf → Outcome L
  unfolding get_conf config_of must
  init build g = do
    cfg ← get_conf g
    level ← get_level cfg.level
    must (build (config_of cfg level))
