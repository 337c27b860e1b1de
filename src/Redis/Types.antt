-- ===== src/Redis/Types.antt =====
-- redis/redis.go: the configuration, the pools, and the variables that their Dial functions capture.
use motor.Base.{ℕ, Text, Dict, Bool, Option, none, some, List, get_elem?, seconds, minutes}

pub record NodeConf : Type 0 where
  pub addr : Text
  pub password : Text

pub record ClusterConf : Type 0 where
  pub idc : Text
  pub master : List NodeConf
  pub slave : List NodeConf
  pub max_idle : ℕ
  pub max_active : ℕ
  pub idle_timeout : ℕ
  pub read_timeout : ℕ
  pub write_timeout : ℕ
  pub conn_timeout : ℕ
  pub keep_alive : ℕ

abbrev pub RedisConf : Type 0
RedisConf = Dict ClusterConf

-- The loop variables `nodeConf` and `cluster`: Go 1.13 has one variable for each run of a `for`
-- statement, which all its rounds assign.
pub record Vars : Type 0 where
  pub nodes : List NodeConf
  pub clusters : List ClusterConf

-- A *redis.Pool: what is set when it is made, and the variables that its Dial reads when it dials.
pub record Pool : Type 0 where
  pub max_idle : ℕ
  pub max_active : ℕ
  pub idle_timeout : ℕ
  pub wait : Bool
  pub node_var : ℕ
  pub cluster_var : ℕ

-- The arguments of redis.Dial, and the password for AUTH.
pub record DialConf : Type 0 where
  pub addr : Text
  pub password : Text
  pub read_timeout : ℕ
  pub write_timeout : ℕ
  pub connect_timeout : ℕ
  pub keep_alive : ℕ

unfoldable pub dial_args : NodeConf → ClusterConf → DialConf
unfolding seconds minutes
dial_args n c = record {
  addr = n.addr;
  password = n.password;
  read_timeout = seconds c.read_timeout;
  write_timeout = seconds c.write_timeout;
  connect_timeout = seconds c.conn_timeout;
  keep_alive = minutes c.keep_alive;
}

with_cluster : NodeConf → Option ClusterConf → Option DialConf
with_cluster n none = none
with_cluster n (some c) = some (dial_args n c)

-- What a pool dials with at a moment: it reads its two variables then.
unfoldable pub dial_conf : Vars → Pool → Option DialConf
unfolding with_cluster
dial_conf vars p = elim (get_elem? vars.nodes p.node_var) [
  | none ↦ none
  | some n ↦ with_cluster n (get_elem? vars.clusters p.cluster_var)
]

pub data LoadMode : Type 0 where
  mode_naming mode_file : LoadMode

pub data OpMode : Type 0 where
  read write : OpMode

-- The two sync.Maps hold one entry, under `cacheKey`: `none` until the first load.
pub record RedisPool : Type 0 where
  pub product_line : Text
  pub idc : Text
  pub pub_env : Text
  pub conf_load_mode : LoadMode
  pub m_map : Option (Dict (List Pool))
  pub s_map : Option (Dict (List Pool))
  pub vars : Vars
