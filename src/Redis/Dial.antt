-- ===== src/Redis/Dial.antt =====
-- The Dial closures of redis/redis.go after they have read their variables, and redisPool.close.
-- redigo is an argument: what redis.Dial gives, and what AUTH answers.
use motor.Base.{
  Text, Dict, ◌≡◌, ◌⊎◌, inl, inr, arith, Bool, true, Option, none, some, List, [], ◌∷◌, ◌++◌,
  is_empty, Option-cases, if◌then◌else◌,
}
use motor.Redis.Types.{DialConf, Pool, RedisPool}

-- What happens to a connection.
pub data Event (C : Type 0) : Type 0 where
  opens : C → Event C
  sends_auth : Text → C → Event C
  closes : C → Event C

-- `none` and `false` are errors.
pub record Redigo (C : Type 0) : Type 0 where
  pub dial : DialConf → Option C
  pub auth : Text → C → Bool

module _ {C : Type 0} (redigo : Redigo C) where
  authenticated : Text → C → Option C × List (Event C)
  authenticated password conn =
      if redigo.auth password conn
      then (some conn, opens conn ∷ sends_auth password conn ∷ [])
      else (none, opens conn ∷ sends_auth password conn ∷ closes conn ∷ [])

  -- Dial with these arguments: the connection, and what happened to it.
  unfoldable pub dial_with : DialConf → Option C × List (Event C)
  unfolding authenticated
  dial_with args = elim (redigo.dial args) [
    | none ↦ (none, [])
    | some conn ↦
        if is_empty args.password
        then (some conn, opens conn ∷ [])
        else authenticated args.password conn
  ]

  -- The connections that are open after these events, where none was at first: each event is about
  -- the one connection of a Dial.
  abbrev left_open : List (Event C) → List C → List C
  left_open [] live = live
  left_open (opens conn ∷ es) live = left_open es (conn ∷ live)
  left_open (sends_auth password conn ∷ es) live = left_open es live
  left_open (closes conn ∷ es) live = left_open es []

  abbrev returned_conn : Option C → List C
  returned_conn none = []
  returned_conn (some conn) = conn ∷ []

  -- A Dial leaves open the connection that it returns, and none where it is an error; a connection
  -- that it returns has passed AUTH where there is a password.
  dial_with-left_open :
      (args : DialConf)
      → (left_open (dial_with args).1 [] ≡ returned_conn (dial_with args).0)
        × ((conn : C)
            → (dial_with args).0 ≡ some conn
            → (is_empty args.password ≡ true) ⊎ (redigo.auth args.password conn ≡ true))
  unfolding dial_with authenticated
  dial_with-left_open args = elim (Option-cases (redigo.dial args)) [
    | inl e ↦ (ground (arith, e), λ conn h. ground (arith, e, h))
    | inr (c, e) ↦ (ground (arith, e), λ conn h. ground (arith, e, h))
  ]

close_each : Dict (List Pool) → List Pool
close_each [] = []
close_each ((name, pools) ∷ m) = pools ++ close_each m

close_loaded : Option (Dict (List Pool)) → List Pool
unfolding close_each
close_loaded none = []
close_loaded (some m) = close_each m

-- close: the pools whose Close its two goroutines call, of the masters and of the slaves. The order
-- between the two is open.
unfoldable pub close : RedisPool → List Pool × List Pool
unfolding close_loaded
close redi = (close_loaded redi.m_map, close_loaded redi.s_map)
