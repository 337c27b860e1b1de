-- ===== src/Mysql/Load/Listed.antt =====
-- The databases that a configuration lists under a name, independently of any loop.
use motor.Base.{
  Text, Dict, Bool, not, ◌&&◌, ◌||◌, ◌≡◌, Option, none, some, List, [], ◌∷◌, ◌++◌, map, arith,
  slice_at, is_empty, text_eq, if◌then◌else◌,
}
use motor.Naming.Types.{Instance, structured_attr}
use motor.Mysql.Types.{
  NodeConf, ClusterConf, MysqlConf, Source, Settings, settings_of, Handle, OpMode, read, write,
  MysqlPool,
}
use motor.Mysql.Load.{Loading, skips}

-- The handles of a mode and a name: slaves to read, masters to write.
abbrev pub dbs_of : OpMode → MysqlPool → Text → List Handle
dbs_of read my name = elim my.s_map [ none ↦ [] | some m ↦ slice_at name m ]
dbs_of write my name = elim my.m_map [ none ↦ [] | some m ↦ slice_at name m ]

abbrev pub map_of : OpMode → Loading → Dict (List Handle)
map_of read l = l.s_map
map_of write l = l.m_map

abbrev pub nodes_of : OpMode → ClusterConf → List NodeConf
nodes_of read c = c.slave
nodes_of write c = c.master

-- An empty setting wants any value.
abbrev pub wants : Text → Text → Bool
wants mine theirs = is_empty mine || text_eq mine theirs

pub skips-wants : (mine theirs : Text) → skips mine theirs ≡ not (wants mine theirs)
unfolding skips
skips-wants mine theirs = ground arith

-- The databases that a configuration lists under a name, for the clusters of an idc.
unfoldable pub listed : OpMode → Text → Text → MysqlConf → List Settings
listed mode idc name [] = []
listed mode idc name ((dbname, c) ∷ cfg) =
    let rest = listed mode idc name cfg in
    if wants idc c.idc && text_eq dbname name
    then map (settings_of dbname c) (nodes_of mode c) ++ rest
    else rest

unfoldable pub attr_listed : OpMode → Text → Option MysqlConf → List Settings
attr_listed mode name none = []
attr_listed mode name (some attr) = listed mode [] name attr

-- The databases that the instances list under a name, those of the pool's idc and pubenv.
unfoldable pub registered :
    OpMode → (Text → Option MysqlConf) → MysqlPool → Text → List Instance → List Settings
registered mode decode my name [] = []
registered mode decode my name (i ∷ is) =
    let rest = registered mode decode my name is in
    if wants my.idc i.idc && wants my.pub_env i.pub_env
    then attr_listed mode name (structured_attr decode i) ++ rest
    else rest

-- Those that answer.
unfoldable pub reachable : (Source → Bool) → List Settings → List Settings
reachable up [] = []
reachable up (s ∷ ss) = let rest = reachable up ss in if up s.source then s ∷ rest else rest
