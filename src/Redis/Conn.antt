-- ===== src/Redis/Conn.antt =====
-- redis/conn.go, and getConn, the pools' Dial, loadConfFromFile, loadConfFromNaming and InitRedis
-- of redis/redis.go. What math/rand, Fetch and redigo answer are arguments.
pub mod Choice
pub mod Follows
use motor.Base.{
  ℕ, Text, lit, ◌++◌, Dict, Bool, true, false, ◌||◌, Option, none, some, List, [], ◌∷◌, length,
  get_elem?, lookup, is_empty, if◌then◌else◌, ◌==◌,
}
use motor.Base.Outcome.{Outcome, returned, panicked, ◌>>=◌}
use mathlib.Core.Option
use motor.Conf.Watch.{Conf}
use motor.Conf.Settings
use motor.Conf.Settings.{unmarshal_toml}
use motor.Naming.Types as Naming
use motor.Naming.Types.{Instance, EtcdBuilder}
use motor.Naming.Builder.{discovery}
use motor.Redis.Types.{
  RedisConf, Pool, RedisPool, LoadMode, mode_naming, mode_file, OpMode, read, write, DialConf, Vars,
}
use motor.Redis.Load.{parse_file_conf, parse_naming_instance}

pub data Error : Type 0 where
  -- no load has finished, and: the cluster has no node of that kind
  uninitialized no_such_pool : Error
  dial_failed auth_failed : Error

pub data Result {ℓ} (A : Type ℓ) : Type ℓ where
  ok : A → Result A
  err : Error → Result A

-- poolSlice[randInt(len(poolSlice))]: rand.Intn panics on 0, an index past the end too.
pick : (ℕ → ℕ) → List Pool → Outcome (Result Pool)
pick rand_intn pools = elim (get_elem? pools (rand_intn (length pools))) [
  | none ↦ panicked
  | some p ↦ returned (ok p)
]

choose : (ℕ → ℕ) → Option (List Pool) → Outcome (Result Pool)
unfolding pick
choose rand_intn none = returned (err no_such_pool)
choose rand_intn (some pools) =
    if length pools == 0 then returned (err no_such_pool) else pick rand_intn pools

from_map : (ℕ → ℕ) → Text → Option (Dict (List Pool)) → Outcome (Result Pool)
unfolding choose
from_map rand_intn name none = returned (err uninitialized)
from_map rand_intn name (some m) = choose rand_intn (lookup name m)

-- The pool whose Get makes the connection.
unfoldable pub get_conn : (ℕ → ℕ) → RedisPool → Text → OpMode → Outcome (Result Pool)
unfolding from_map
get_conn rand_intn redi name read = from_map rand_intn name redi.s_map
get_conn rand_intn redi name write = from_map rand_intn name redi.m_map

pub record RedisConn : Type 0 where
  pub pool : Pool
  pub is_master : Bool
  pub cluster_name : Text

is_write : OpMode → Bool
is_write read = false
is_write write = true

wrap : Text → OpMode → Outcome (Result Pool) → Outcome (Option RedisConn)
unfolding is_write
wrap name m panicked = panicked
wrap name m (returned (err e)) = returned none
wrap name m (returned (ok p)) =
    returned (some (record { pool = p; is_master = is_write m; cluster_name = name }))

-- GetConn over `_redisPool`, a nil pointer until InitRedis has returned.
unfoldable pub conn_of : (ℕ → ℕ) → Option RedisPool → Text → OpMode → Outcome (Option RedisConn)
unfolding wrap
conn_of rand_intn none name m = panicked
conn_of rand_intn (some redi) name m = wrap name m (get_conn rand_intn redi name m)

-- Fetches of the resolver, one for each token, up to the first that is there.
first_fetch : (Text → Option RedisConf) → RedisPool → List (List Instance × Bool) → Option RedisPool
first_fetch decode redi [] = none
first_fetch decode redi ((ins, false) ∷ fetches) = first_fetch decode redi fetches
first_fetch decode redi ((ins, true) ∷ fetches) = some (parse_naming_instance decode ins redi)

-- What InitRedis finds outside: the client of conf, what naming.Build gives, and what the resolver's
-- Fetch gives at each token.
pub record Sources : Type 0 where
  pub client : Option Conf
  pub builder : Option EtcdBuilder
  pub fetches : List (List Instance × Bool)

new_pool_of : LoadMode → Text → Text → Text → RedisPool
new_pool_of mode product_line idc pub_env = record {
  product_line = product_line;
  idc = idc;
  pub_env = pub_env;
  conf_load_mode = mode;
  m_map = none;
  s_map = none;
  vars = record { nodes = []; clusters = [] };
}

-- Up to the start of the goroutine; `none` is an error.
unfoldable pub load_conf_from_file :
    (Text → Option RedisConf) → Option Conf → RedisPool → Outcome (Option RedisPool)
load_conf_from_file from_toml g redi = do
  v ← Settings.get g (lit "redis.toml")
  cfg ← unmarshal_toml from_toml v
  returned (Option.map (λ c. parse_file_conf c redi) cfg)

-- `none` is an error; `some none` says that no Fetch was ok, and the call still waits.
discovered :
    (Text → Option RedisConf)
    → RedisPool
    → List (List Instance × Bool)
    → Naming.Result ℕ
    → Option (Option RedisPool)
unfolding first_fetch
discovered decode redi fetches (Naming.err e) = none
discovered decode redi fetches (Naming.ok r) = some (first_fetch decode redi fetches)

load_conf_from_naming : (Text → Option RedisConf) → Sources → RedisPool → Option (Option RedisPool)
unfolding discovered
load_conf_from_naming decode src redi = elim src.builder [
  | none ↦ none
  | some e ↦ discovered decode redi src.fetches (discovery (lit "redis/" ++ redi.product_line) e).0
]

or_panic : {A : Type 0} → Option A → Outcome A
or_panic none = panicked
or_panic (some a) = returned a

load :
    (Text → Option RedisConf)
    → (Text → Option RedisConf)
    → Sources
    → RedisPool
    → LoadMode
    → Outcome (Option RedisPool)
unfolding load_conf_from_file load_conf_from_naming or_panic
load from_toml decode src redi mode_file = do
  r ← load_conf_from_file from_toml src.client redi
  p ← or_panic r
  returned (some p)
load from_toml decode src redi mode_naming = or_panic (load_conf_from_naming decode src redi)

-- `from_toml` is toml.Unmarshal into the settings, `decode` json.Unmarshal of an instance's data.
unfoldable pub init_redis :
    (Text → Option RedisConf)
    → (Text → Option RedisConf)
    → Sources
    → Option RedisPool
    → LoadMode
    → Text
    → Text
    → Text
    → Outcome (Option RedisPool)
unfolding load new_pool_of
init_redis from_toml decode src (some redi) mode product_line idc pub_env = returned (some redi)
init_redis from_toml decode src none mode product_line idc pub_env =
    load from_toml decode src (new_pool_of mode product_line idc pub_env) mode
