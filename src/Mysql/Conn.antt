-- ===== src/Mysql/Conn.antt =====
-- getDB, loadConfFromFile, loadConfFromNaming, InitMysql and Close of mysql/mysql.go, and GetDB of
-- mysql/sql.go. What math/rand, Fetch and the driver answer are arguments.
pub mod Choice
use motor.Base.{
  ℕ, Text, lit, ◌++◌, Dict, Bool, true, false, Option, none, some, List, [], ◌∷◌, length, get_elem?,
  lookup, if◌then◌else◌, ◌==◌,
}
use motor.Base.Outcome.{Outcome, returned, panicked, ◌>>=◌}
use mathlib.Core.Option
use motor.Conf.Watch.{Conf}
use motor.Conf.Settings
use motor.Conf.Settings.{unmarshal_toml}
use motor.Naming.Types as Naming
use motor.Naming.Types.{Instance, EtcdBuilder}
use motor.Naming.Builder.{discovery}
use motor.Mysql.Types.{
  MysqlConf, Source, Handle, Driver, MysqlPool, State, LoadMode, mode_naming, mode_file, OpMode,
  read, write, new_pool_of,
}
use motor.Mysql.Load.{parse_file_conf, parse_naming_instance, close}

pub data Error : Type 0 where
  -- no load has finished, and: the database has no handle of that kind
  uninitialized no_such_db : Error

pub data Result {ℓ} (A : Type ℓ) : Type ℓ where
  ok : A → Result A
  err : Error → Result A

-- dbSlice[randInt(len(dbSlice))]: rand.Intn panics on 0, an index past the end too.
pick : (ℕ → ℕ) → List Handle → Outcome (Result Handle)
pick rand_intn dbs = elim (get_elem? dbs (rand_intn (length dbs))) [
  | none ↦ panicked
  | some db ↦ returned (ok db)
]

choose : (ℕ → ℕ) → Option (List Handle) → Outcome (Result Handle)
unfolding pick
choose rand_intn none = returned (err no_such_db)
choose rand_intn (some dbs) =
    if length dbs == 0 then returned (err no_such_db) else pick rand_intn dbs

from_map : (ℕ → ℕ) → Text → Option (Dict (List Handle)) → Outcome (Result Handle)
unfolding choose
from_map rand_intn dbname none = returned (err uninitialized)
from_map rand_intn dbname (some m) = choose rand_intn (lookup dbname m)

unfoldable pub get_db : (ℕ → ℕ) → MysqlPool → Text → OpMode → Outcome (Result Handle)
unfolding from_map
get_db rand_intn my dbname read = from_map rand_intn dbname my.s_map
get_db rand_intn my dbname write = from_map rand_intn dbname my.m_map

-- DB of mysql/sql.go; its gin context only carries the trace.
pub record Db : Type 0 where
  pub db : Handle
  pub is_master : Bool
  pub dbname : Text
  pub table : Text

is_write : OpMode → Bool
is_write read = false
is_write write = true

wrap : Text → Text → OpMode → Outcome (Result Handle) → Outcome (Option Db)
unfolding is_write
wrap dbname table m panicked = panicked
wrap dbname table m (returned (err e)) = returned none
wrap dbname table m (returned (ok db)) =
    returned (some (record { db = db; is_master = is_write m; dbname = dbname; table = table }))

-- GetDB over `_mysqlPool`, a nil pointer until InitMysql has returned.
unfoldable pub db_of : (ℕ → ℕ) → Option MysqlPool → Text → Text → OpMode → Outcome (Option Db)
unfolding wrap
db_of rand_intn none dbname table m = panicked
db_of rand_intn (some my) dbname table m = wrap dbname table m (get_db rand_intn my dbname m)

module _ (opens : ℕ → Source → Bool) (decode : Text → Option MysqlConf) where
  -- Fetches of the resolver, one for each token, up to the first that is there.
  first_fetch : State → List (List Instance × Bool) → Option State
  first_fetch s [] = none
  first_fetch s ((ins, false) ∷ fetches) = first_fetch s fetches
  first_fetch s ((ins, true) ∷ fetches) = some (parse_naming_instance opens decode ins s)

-- What InitMysql finds outside: the client of conf, what naming.Build gives, and what the resolver's
-- Fetch gives at each token.
pub record Sources : Type 0 where
  pub client : Option Conf
  pub builder : Option EtcdBuilder
  pub fetches : List (List Instance × Bool)

or_panic : {A : Type 0} → Option A → Outcome A
or_panic none = panicked
or_panic (some a) = returned a

-- `from_toml` is toml.Unmarshal into the settings, `decode` json.Unmarshal of an instance's data.
module _ (opens : ℕ → Source → Bool) (from_toml decode : Text → Option MysqlConf) where
  -- Up to the start of the goroutine; `none` is an error.
  unfoldable pub load_conf_from_file : Option Conf → State → Outcome (Option State)
  load_conf_from_file g s = do
    v ← Settings.get g (lit "mysql.toml")
    cfg ← unmarshal_toml from_toml v
    returned (Option.map (λ c. parse_file_conf opens c s) cfg)

  -- `none` is an error; `some none` says that no Fetch was ok, and the call still waits.
  discovered : State → List (List Instance × Bool) → Naming.Result ℕ → Option (Option State)
  unfolding first_fetch
  discovered s fetches (Naming.err e) = none
  discovered s fetches (Naming.ok r) = some (first_fetch opens decode s fetches)

  load_conf_from_naming : Sources → State → Option (Option State)
  unfolding discovered
  load_conf_from_naming src s = elim src.builder [
    | none ↦ none
    | some e ↦ discovered s src.fetches (discovery (lit "mysql/" ++ s.my.product_line) e).0
  ]

  -- An error panics.
  load : Sources → State → LoadMode → Outcome (Option State)
  unfolding load_conf_from_file load_conf_from_naming or_panic
  load src s mode_file = do
    r ← load_conf_from_file src.client s
    s' ← or_panic r
    returned (some s')
  load src s mode_naming = or_panic (load_conf_from_naming src s)

-- InitMysql: when `_mysqlPool` is set it does nothing.
unfoldable pub init_mysql :
    (ℕ → Source → Bool)
    → (Text → Option MysqlConf)
    → (Text → Option MysqlConf)
    → Sources
    → Option MysqlPool
    → LoadMode
    → Text
    → Text
    → Text
    → Driver
    → Outcome (Option State)
unfolding load
init_mysql opens from_toml decode src (some my) mode product_line idc pub_env d =
    returned (some (record { my = my; driver = d }))
init_mysql opens from_toml decode src none mode product_line idc pub_env d =
    load opens from_toml decode src
      (record { my = new_pool_of mode product_line idc pub_env; driver = d }) mode
