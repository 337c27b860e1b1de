-- ===== src/Mysql/Load.antt =====
-- mysql/mysql.go: parseFileConf, parseNamingInstance and close.
pub mod Listed
pub mod Reached
pub mod Held
pub mod Live
pub mod Reload
use motor.Base.{
  ℕ, ◌+◌, Text, Dict, Bool, true, false, not, ◌&&◌, Option, none, some, List, [], ◌∷◌, ◌++◌,
  is_empty, text_eq, append_at, if◌then◌else◌, ◌==◌, ◌≡◌,
}
use motor.Naming.Types.{Instance, structured_attr}
use motor.Mysql.Types.{
  NodeConf, ClusterConf, MysqlConf, Source, Settings, settings_of, Handle, Driver, MysqlPool, State,
}

-- The driver, and the map that a loop over nodes appends to.
pub record Opening : Type 0 where
  pub driver : Driver
  pub dbs : Dict (List Handle)

pub record Loading : Type 0 where
  pub driver : Driver
  pub m_map : Dict (List Handle)
  pub s_map : Dict (List Handle)

-- An Open that fails leaves no handle.
failed : Opening → Opening
failed o = record o { driver = record o.driver { attempts = o.driver.attempts + 1 } }

opened : Text → Handle → Opening → Opening
opened dbname db o = record {
  driver = record { attempts = o.driver.attempts + 1; live = o.driver.live ++ (db ∷ []) };
  dbs = append_at dbname db o.dbs;
}

-- The test of idc and pubenv: an empty setting of the pool takes any value.
pub skips : Text → Text → Bool
skips mine theirs = not (is_empty mine) && not (text_eq mine theirs)

-- `opens n source` says whether the n-th Open, of that source, succeeds.
module _ (opens : ℕ → Source → Bool) where
  -- One round of `for _, dbconf := range cluster.Master`, or of Slave.
  pub open_node : Text → ClusterConf → NodeConf → Opening → Opening
  unfolding opened failed
  open_node dbname cluster dbconf o =
      let settings = settings_of dbname cluster dbconf in
      if opens o.driver.attempts settings.source
      then opened dbname (record { id = o.driver.attempts; settings = settings }) o
      else failed o

  pub range_nodes : Text → ClusterConf → List NodeConf → Opening → Opening
  unfolding open_node
  range_nodes dbname cluster [] o = o
  range_nodes dbname cluster (n ∷ ns) o =
      range_nodes dbname cluster ns (open_node dbname cluster n o)

  pub add_masters : Text → ClusterConf → Loading → Loading
  unfolding range_nodes
  add_masters dbname cluster l =
      let o =
        range_nodes dbname cluster cluster.master (record { driver = l.driver; dbs = l.m_map }) in
      record { driver = o.driver; m_map = o.dbs; s_map = l.s_map }

  pub add_slaves : Text → ClusterConf → Loading → Loading
  unfolding range_nodes
  add_slaves dbname cluster l =
      let o =
        range_nodes dbname cluster cluster.slave (record { driver = l.driver; dbs = l.s_map }) in
      record { driver = o.driver; m_map = l.m_map; s_map = o.dbs }

  pub add_cluster : Text → ClusterConf → Loading → Loading
  unfolding add_masters add_slaves
  add_cluster dbname cluster l = add_slaves dbname cluster (add_masters dbname cluster l)

  -- A cluster of another idc is passed over, when the pool has one.
  pub range_file : Text → MysqlConf → Loading → Loading
  unfolding add_cluster skips
  range_file idc [] l = l
  range_file idc ((dbname, cluster) ∷ database) l =
      range_file idc database (if skips idc cluster.idc then l else add_cluster dbname cluster l)

  pub range_naming : MysqlConf → Loading → Loading
  unfolding add_cluster
  range_naming [] l = l
  range_naming ((dbname, cluster) ∷ database) l =
      range_naming database (add_cluster dbname cluster l)

  pub add_attr : Option MysqlConf → Loading → Loading
  unfolding range_naming
  add_attr none l = l
  add_attr (some attr) l = range_naming attr l

  -- `decode` is what StructuredAttr does with a string attribute.
  pub range_instances : (Text → Option MysqlConf) → MysqlPool → List Instance → Loading → Loading
  unfolding add_attr skips
  range_instances decode my [] l = l
  range_instances decode my (i ∷ is) l = range_instances decode my is (
      if skips my.idc i.idc
      then l
      else if skips my.pub_env i.pub_env
      then l
      else add_attr (structured_attr decode i) l)

pub start : Driver → Loading
start d = record { driver = d; m_map = []; s_map = [] }

pub loaded : MysqlPool → Loading → State
loaded my l = record {
  my = record my { m_map = some l.m_map; s_map = some l.s_map };
  driver = l.driver;
}

unfoldable pub parse_file_conf : (ℕ → Source → Bool) → MysqlConf → State → State
unfolding range_file start loaded
parse_file_conf opens cfg s = loaded s.my (range_file opens s.my.idc cfg (start s.driver))

unfoldable pub parse_naming_instance :
    (ℕ → Source → Bool) → (Text → Option MysqlConf) → List Instance → State → State
unfolding range_instances start loaded
parse_naming_instance opens decode [] s = loaded s.my (start s.driver)
parse_naming_instance opens decode (i ∷ is) s =
    loaded s.my (range_instances opens decode s.my (i ∷ is) (start s.driver))

-- db.Close: the handle is open no longer; its error is logged only.
unfoldable pub close_db : ℕ → List Handle → List Handle
close_db n [] = []
close_db n (h ∷ hs) = let rest = close_db n hs in if n == h.id then rest else h ∷ rest

unfoldable pub close_dbs : List Handle → List Handle → List Handle
unfolding close_db
close_dbs [] live = live
close_dbs (db ∷ dbs) live = close_dbs dbs (close_db db.id live)

pub close_map : Dict (List Handle) → List Handle → List Handle
unfolding close_dbs
close_map [] live = live
close_map ((dbname, dbs) ∷ m) live = close_map m (close_dbs dbs live)

pub close_loaded : Option (Dict (List Handle)) → List Handle → List Handle
unfolding close_map
close_loaded none live = live
close_loaded (some m) live = close_map m live

-- mysqlPool.close, when its two goroutines have ended; the maps stay.
unfoldable pub close : State → State
unfolding close_loaded
close s = record s {
  driver = record s.driver {
    live = close_loaded s.my.s_map (close_loaded s.my.m_map s.driver.live);
  };
}
