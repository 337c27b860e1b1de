-- ===== src/Conf/Follow.antt =====
-- Watch of conf/api.go: a setter that is given the text of a file, and then each new one by a goroutine.
pub mod Applied
mod Tests
use motor.Base.{ℕ, Text, Bool, Option, none, some, List, [], ◌∷◌}
use motor.Base.Outcome.{Outcome, returned, ◌>>=◌}
use motor.Conf.Storage.{raw}
use motor.Conf.Watch.{Event, Conf, watch_event, receive}
use motor.Conf.Watch.Subscribe.{Call, step}
use motor.Conf.Settings

-- The object that all share, and the setter.
pub record System (S : Type 0) : Type 0 where
  pub conf : Conf
  pub setter : S

-- What happens next: the goroutine takes an event, or another makes a call of the object.
pub data Turn : Type 0 where
  takes : Turn
  calls : Call → Turn

-- `set` is Set: is there no error, and the setter after it.
module _ {S : Type 0} (set : Text → S → Bool × S) where
  -- What Watch does before it starts the goroutine and returns: is there no error, and the setter.
  unfoldable pub watch : Text → Option Conf → S → Outcome (Bool × S)
  watch key g s = do v ← Settings.get g key; str ← raw v; returned (set str s)

  -- The goroutine begins with WatchEvent: its channel, and the object after it.
  unfoldable pub subscribe : Text → Conf → ℕ × Conf
  subscribe key c = watch_event (key ∷ []) c

  -- A Set that fails is logged.
  on_event : System S → Option (Event × Conf) → System S
  on_event s none = s
  on_event s (some (ev, c)) = record { conf = c; setter = (set ev.val s.setter).1 }

  -- `ch` is the goroutine's channel.
  unfoldable pub turn : ℕ → System S → Turn → System S
  unfolding on_event
  turn ch s takes = on_event s (receive ch s.conf)
  turn ch s (calls c) = record s { conf = step s.conf c }

  unfoldable pub follow : ℕ → System S → List Turn → System S
  unfolding turn
  follow ch s [] = s
  follow ch s (t ∷ ts) = follow ch (turn ch s t) ts
