-- ===== src/Conf/Reload.antt =====
-- The loops of loadConfFromFile, in redis/redis.go and mysql/mysql.go, against the object that they
-- follow: at each event of its channel the file is read again by Get and UnmarshalTOML.
pub mod Found
pub mod Fill
pub mod Synced
pub mod Loaded
pub mod First
use motor.Base.{ℕ, Text, Bool, true, false, Option, none, some, List, [], ◌∷◌, if◌then◌else◌}
use motor.Base.Outcome.{Outcome, returned, panicked, ◌>>=◌}
use motor.Conf.Watch
use motor.Conf.Watch.{Conf, Event, receive}
use motor.Conf.Watch.Subscribe.{Call, step}
use motor.Conf.Settings.{unmarshal_toml}

-- The object that all share, whether the loop is between its receive and its Get, and the pool;
-- `panicked` once the loop has panicked.
pub record System (P : Type 0) : Type 0 where
  pub conf : Conf
  pub woken : Bool
  pub pool : Outcome P

-- What happens next: the loop receives an event, or reads the file, or another goroutine makes a
-- call.
pub data Turn : Type 0 where
  takes reads : Turn
  calls : Call → Turn

-- `file` is the name, `decode` is toml.Unmarshal into the settings, `load` is parseFileConf.
module _ {A P : Type 0} (file : Text) (decode : Text → Option A) (load : A → P → P) where
  -- conf.Get(file).UnmarshalTOML(&cfg)
  unfoldable pub read_file : Conf → Outcome (Option A)
  read_file c = do v ← Watch.get c file; unmarshal_toml decode v

  -- `continue` where the text does not decode.
  unfoldable pub reloaded : Outcome (Option A) → Outcome P → Outcome P
  reloaded cfg panicked = panicked
  reloaded panicked (returned p) = panicked
  reloaded (returned none) (returned p) = returned p
  reloaded (returned (some cfg)) (returned p) = returned (load cfg p)

  taken : System P → Option (Event × Conf) → System P
  taken s none = s
  taken s (some (ev, c)) = record s { conf = c; woken = true }

  unfoldable pub take : ℕ → System P → System P
  unfolding taken
  take ch s = if s.woken then s else taken s (receive ch s.conf)

  unfoldable pub read : System P → System P
  unfolding read_file reloaded
  read s =
      if s.woken then record s { woken = false; pool = reloaded (read_file s.conf) s.pool } else s

  -- `ch` is the loop's channel.
  unfoldable pub turn : ℕ → System P → Turn → System P
  unfolding take read
  turn ch s takes = take ch s
  turn ch s reads = read s
  turn ch s (calls c) = record s { conf = step s.conf c }

  unfoldable pub follow : ℕ → System P → List Turn → System P
  unfolding turn
  follow ch s [] = s
  follow ch s (t ∷ ts) = follow ch (turn ch s t) ts
