-- ===== src/Mysql/Types.antt =====
-- mysql/mysql.go: the configuration, the pools, and the handles of database/sql that they hold.
use motor.Base.{ℕ, Text, Dict, Option, none, List, seconds}

pub record NodeConf : Type 0 where
  pub username : Text
  pub password : Text
  pub ip : Text
  pub port : ℕ

pub record ClusterConf : Type 0 where
  pub idc : Text
  pub master : List NodeConf
  pub slave : List NodeConf
  pub conn_max_lifetime : ℕ
  pub max_open_conns : ℕ
  pub max_idle_conns : ℕ
  pub conn_timeout : ℕ
  pub read_timeout : ℕ
  pub write_timeout : ℕ

abbrev pub MysqlConf : Type 0
MysqlConf = Dict ClusterConf

-- What manager.New, Set and Port are given; the other options of Set are constants.
pub record Source : Type 0 where
  pub dbname : Text
  pub username : Text
  pub password : Text
  pub ip : Text
  pub port : ℕ
  pub timeout : ℕ
  pub read_timeout : ℕ
  pub write_timeout : ℕ

unfoldable pub source_of : Text → ClusterConf → NodeConf → Source
unfolding seconds
source_of dbname cluster dbconf = record {
  dbname = dbname;
  username = dbconf.username;
  password = dbconf.password;
  ip = dbconf.ip;
  port = dbconf.port;
  timeout = seconds cluster.conn_timeout;
  read_timeout = seconds cluster.read_timeout;
  write_timeout = seconds cluster.write_timeout;
}

-- A source with the limits that are set on its handle.
pub record Settings : Type 0 where
  pub source : Source
  pub max_idle : ℕ
  pub max_open : ℕ
  pub lifetime : ℕ

unfoldable pub settings_of : Text → ClusterConf → NodeConf → Settings
unfolding source_of seconds
settings_of dbname cluster dbconf = record {
  source = source_of dbname cluster dbconf;
  max_idle = cluster.max_idle_conns;
  max_open = cluster.max_open_conns;
  lifetime = seconds cluster.conn_max_lifetime;
}

-- A *sql.DB: pointers differ by the attempt that made them.
pub record Handle : Type 0 where
  pub id : ℕ
  pub settings : Settings

-- How often Open was called, and the handles that are open.
pub record Driver : Type 0 where
  pub attempts : ℕ
  pub live : List Handle

pub data LoadMode : Type 0 where
  mode_naming mode_file : LoadMode

pub data OpMode : Type 0 where
  read write : OpMode

-- The two sync.Maps hold one entry, under `cacheKey`: `none` until the first load.
pub record MysqlPool : Type 0 where
  pub product_line : Text
  pub idc : Text
  pub pub_env : Text
  pub conf_load_mode : LoadMode
  pub m_map : Option (Dict (List Handle))
  pub s_map : Option (Dict (List Handle))

-- The composite literal of InitMysql.
abbrev pub new_pool_of : LoadMode → Text → Text → Text → MysqlPool
new_pool_of mode product_line idc pub_env = record {
  product_line = product_line;
  idc = idc;
  pub_env = pub_env;
  conf_load_mode = mode;
  m_map = none;
  s_map = none;
}

-- The pool, and the driver that it opens its handles with.
pub record State : Type 0 where
  pub my : MysqlPool
  pub driver : Driver
