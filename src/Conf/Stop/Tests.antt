-- ===== src/Conf/Stop/Tests.antt =====
-- Runs of Stop: two calls of which one returns, and a call after the watcher has failed.
use motor.Base.{inl, inr, insert, to_lower, ◌+◌, ◌≤◌, lit, ◌≡◌, refl, arith, [], ◌∷◌}
use motor.Base.Outcome.{returned}
use motor.Conf.Storage
use motor.Conf.Storage.{load, store, raw, key_name}
use motor.Conf.Watch.{Conf, monitor_step}
use motor.Conf.Stop.{
  ended, System, start, adds, fails, calls_stop, sends, ends, waits, Steps, here, later, dump,
}
use motor.Conf.Stop.Ended.{IsOver, stop-ended}

abbrev app : Conf
app = record {
  raw = (lit "App.toml", record { raw = lit "a=1" }) ∷ [];
  content = Storage.store ((lit "App.toml", record { raw = lit "a=1" }) ∷ []);
  watch_chs = [];
  chans = [];
}

dump-app : dump app ≡ returned (lit "app.toml: a=1")
unfolding dump load store insert raw key_name to_lower
dump-app = refl

abbrev stopped_once : System
stopped_once = record { conf = app; monitor = ended; sending = 1; waiting = 0; stopped = 1 }

once-Steps : Steps (lit "linux") (start app) stopped_once
unfolding monitor_step
once-Steps =
    later
      (later
        (later (later (later (later here (adds refl)) calls_stop) calls_stop)
          (sends refl (omega arith)))
        (ends refl))
      (waits refl (omega arith))

stop_again : Steps (lit "linux") stopped_once (record stopped_once { sending = 2 })
stop_again = later here calls_stop

stop-ended_example : IsOver stopped_once (record stopped_once { sending = 2 }) × (0 + 1 ≤ 1)
stop-ended_example = stop-ended once-Steps (inr (omega arith)) stop_again

abbrev unwatched : System
unwatched = record { conf = app; monitor = ended; sending = 0; waiting = 0; stopped = 0 }

stop_unwatched : IsOver unwatched (record unwatched { sending = 1 }) × (0 + 0 ≤ 1)
stop_unwatched =
    stop-ended {goos = lit "linux"} {c = app} {s = unwatched} {t = record unwatched { sending = 1 }}
      (later (later here (fails refl)) (ends refl)) (inl refl) (later here calls_stop)
