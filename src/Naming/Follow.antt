-- ===== src/Naming/Follow.antt =====
-- The loops of loadConfFromNaming, in redis/redis.go and mysql/mysql.go, against the builder that
-- they follow: a pool is loaded again from the instances of a service at each token.
mod Turns
pub mod Synced
use motor.Base.{ℕ, Text, Bool, true, false, Option, none, some, List, [], ◌∷◌, if◌then◌else◌}
use motor.Naming.Types.{Instance, EtcdBuilder}
use motor.Naming.Builder.{Call, step, fetch, receive}

-- The builder that all share, a pool, and whether its loop is between `<-resolver.Watch()` and Fetch.
pub record System (P : Type 0) : Type 0 where
  pub builder : EtcdBuilder
  pub woken : Bool
  pub pool : P

-- What happens next: the loop receives its token, or fetches, or another goroutine makes a call.
pub data Turn : Type 0 where
  wakes fetches : Turn
  calls : Call → Turn

-- `load` is parseNamingInstance, `r` and `sn` are the resolver of the loop and its service.
module _ {P : Type 0} (load : List Instance → P → P) (r : ℕ) (sn : Text) where
  -- The loop waits where there is no token.
  received : System P → Option EtcdBuilder → System P
  received s none = s
  received s (some e) = record s { builder = e; woken = true }

  unfoldable pub wake : System P → System P
  unfolding received
  wake s = if s.woken then s else received s (receive r s.builder)

  -- `continue` where Fetch is not ok.
  pub fetched : System P → List Instance × Bool → System P
  fetched s (ins, false) = record s { woken = false }
  fetched s (ins, true) = record s { woken = false; pool = load ins s.pool }

  unfoldable pub fetch_turn : System P → System P
  unfolding fetched
  fetch_turn s = if s.woken then fetched s (fetch sn s.builder) else s

  unfoldable pub turn : System P → Turn → System P
  unfolding wake fetch_turn
  turn s wakes = wake s
  turn s fetches = fetch_turn s
  turn s (calls c) = record s { builder = step s.builder c }

  unfoldable pub follow : System P → List Turn → System P
  unfolding turn
  follow s [] = s
  follow s (t ∷ ts) = follow (turn s t) ts
