-- ===== src/Conf/Stop.antt =====
-- Stop and Dump of conf/conf.go, with the start and the end of the monitor: the goroutines as steps
-- that may follow each other in any order. The channel `done` has no buffer, so a send is one step
-- with its receive.
pub mod Ended
mod Tests
use motor.Base.{
  ℕ, ◌+◌, ◌-◌, ◌<◌, Text, lit, Dict, ◌≡◌, Bool, true, Option, some, List, [], ◌∷◌, ◌++◌,
}
use motor.Base.Outcome.{Outcome, returned, ◌>>=◌}
use motor.Conf.Storage
use motor.Conf.Storage.{Value, raw}
use motor.Conf.Watch.{Event, Conf, watch_event, receive, Signal, done, monitor_step}

-- Where the monitor stands: before its loop, in the loop, before its deferred calls, and after them,
-- of which the last is wg.Done.
pub data Monitor : Type 0 where
  starting watching closing ended : Monitor

-- The object, its monitor, and how many calls of Stop are at their send, at wg.Wait, and at an end.
pub record System : Type 0 where
  pub conf : Conf
  pub monitor : Monitor
  pub sending : ℕ
  pub waiting : ℕ
  pub stopped : ℕ

-- The object as newConf leaves it.
abbrev pub start : Conf → System
start c = record { conf = c; monitor = starting; sending = 0; waiting = 0; stopped = 0 }

pub data Step (goos : Text) (s : System) : System → Type 0 where
  -- fsnotify.NewWatcher and watcher.Add, or an error of one of them
  adds : s.monitor ≡ starting → Step goos s (record s { monitor = watching })
  fails : s.monitor ≡ starting → Step goos s (record s { monitor = closing })
  -- what the loop's select meets, other than a receive from `done`
  meets :
      (x : Signal)
      → s.monitor ≡ watching
      → (monitor_step goos x s.conf).0 ≡ true
      → Step goos s (record s { conf = (monitor_step goos x s.conf).1 })
  calls_stop : Step goos s (record s { sending = s.sending + 1 })
  -- a send of `done` with the monitor's receive
  sends :
      s.monitor ≡ watching
      → 0 < s.sending
      → Step goos s (record s {
        conf = (monitor_step goos done s.conf).1;
        monitor = closing;
        sending = s.sending - 1;
        waiting = s.waiting + 1;
      })
  ends : s.monitor ≡ closing → Step goos s (record s { monitor = ended })
  waits :
      s.monitor ≡ ended
      → 0 < s.waiting
      → Step goos s (record s { waiting = s.waiting - 1; stopped = s.stopped + 1 })
  -- the other goroutines' calls
  watches : (keys : List Text) → Step goos s (record s { conf = (watch_event keys s.conf).1 })
  receives :
      (ch : ℕ) {ev : Event} {c : Conf}
      → receive ch s.conf ≡ some (ev, c)
      → Step goos s (record s { conf = c })

pub data Steps (goos : Text) (s : System) : System → Type 0 where
  here : Steps goos s s
  later : {t u : System} → Steps goos s t → Step goos t u → Steps goos s u

-- The range over the storage; the order of the map is the list's.
dump_loop : Dict Value → Outcome Text
dump_loop [] = returned []
dump_loop ((k, v) ∷ m) = do
  text ← raw (some v)
  rest ← dump_loop m
  returned (k ++ (lit ": " ++ (text ++ rest)))

unfoldable pub dump : Conf → Outcome Text
unfolding dump_loop
dump c = do m ← Storage.load c.content; dump_loop m
