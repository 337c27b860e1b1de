-- ===== src/Redis/Load.antt =====
-- redis/redis.go: parseFileConf and parseNamingInstance.
mod Cells
mod Rounds
pub mod Capture
pub mod Filter
use motor.Base.{
  ℕ, ◌+◌, Text, lit, Dict, Bool, true, false, not, ◌&&◌, Option, none, some, List, [], ◌∷◌, ◌++◌,
  length, modify, is_empty, text_eq, append_at, if◌then◌else◌, minutes,
}
use motor.Naming.Types.{Instance, structured_attr}
use motor.Redis.Types.{NodeConf, ClusterConf, RedisConf, Vars, Pool, RedisPool}

-- The two maps that a load builds, and the variables of its loops.
pub record Loading : Type 0 where
  pub vars : Vars
  pub m_map : Dict (List Pool)
  pub s_map : Dict (List Pool)

abbrev pub zero_node : NodeConf
zero_node = record { addr = []; password = [] }

abbrev pub zero_cluster : ClusterConf
zero_cluster = record {
  idc = [];
  master = [];
  slave = [];
  max_idle = 0;
  max_active = 0;
  idle_timeout = 0;
  read_timeout = 0;
  write_timeout = 0;
  conn_timeout = 0;
  keep_alive = 0;
}

-- The composite literal in the loop: the settings are read now, the closure keeps the variables.
pub new_pool : ℕ → ℕ → ClusterConf → Pool
unfolding minutes
new_pool node_var cluster_var cluster = record {
  max_idle = cluster.max_idle;
  max_active = cluster.max_active;
  idle_timeout = minutes cluster.idle_timeout;
  wait = true;
  node_var = node_var;
  cluster_var = cluster_var;
}

-- The rounds of `for _, nodeConf := range nodes`, over the list of nodes that is left.
range_nodes :
    ℕ
    → ℕ
    → Text
    → ClusterConf
    → List NodeConf
    → List NodeConf
    → Dict (List Pool)
    → List NodeConf × Dict (List Pool)
unfolding new_pool modify
range_nodes nv cv name cluster [] vs m = (vs, m)
range_nodes nv cv name cluster (n ∷ ns) vs m =
    range_nodes nv cv name cluster ns (modify nv (λ _. n) vs)
      (append_at name (new_pool nv cv cluster) m)

-- The whole statement, with its new variable.
pub for_nodes :
    ℕ
    → Text
    → ClusterConf
    → List NodeConf
    → List NodeConf
    → Dict (List Pool)
    → List NodeConf × Dict (List Pool)
unfolding range_nodes
for_nodes cv name cluster ns vs m =
    range_nodes (length vs) cv name cluster ns (vs ++ (zero_node ∷ [])) m

-- The pools of one cluster: masters, then slaves.
add_cluster : ℕ → Text → ClusterConf → Loading → Loading
unfolding for_nodes
add_cluster cv name cluster l =
    let (vs, ms) = for_nodes cv name cluster cluster.master l.vars.nodes l.m_map in
    let (vs', ss) = for_nodes cv name cluster cluster.slave vs l.s_map in
    record { vars = record l.vars { nodes = vs' }; m_map = ms; s_map = ss }

-- The round of `for clusterName, cluster := range` begins by assigning the variable.
assign_cluster : ℕ → ClusterConf → Loading → Loading
unfolding modify
assign_cluster cv cluster l = record l {
  vars = record l.vars { clusters = modify cv (λ _. cluster) l.vars.clusters };
}

new_cluster_var : Loading → Loading
new_cluster_var l = record l {
  vars = record l.vars { clusters = l.vars.clusters ++ (zero_cluster ∷ []) };
}

unfoldable pub skips : Text → Text → Bool
skips mine theirs = not (is_empty mine) && not (text_eq mine theirs)

-- One round of parseFileConf's loop; a cluster of another idc is passed over.
pub file_round : ℕ → Text → Text → ClusterConf → Loading → Loading
file_round cv idc name cluster l =
    let l' = assign_cluster cv cluster l in
    if skips idc cluster.idc then l' else add_cluster cv name cluster l'

range_file : ℕ → Text → RedisConf → Loading → Loading
range_file cv idc [] l = l
range_file cv idc ((name, cluster) ∷ server) l =
    range_file cv idc server (file_round cv idc name cluster l)

loaded : RedisPool → Loading → RedisPool
loaded redi l = record redi { m_map = some l.m_map; s_map = some l.s_map; vars = l.vars }

start : RedisPool → Loading
start redi = record { vars = redi.vars; m_map = []; s_map = [] }

unfoldable pub parse_file_conf : RedisConf → RedisPool → RedisPool
unfolding range_file file_round add_cluster assign_cluster skips loaded start new_cluster_var
parse_file_conf cfg redi =
    loaded redi (range_file (length redi.vars.clusters) redi.idc cfg (new_cluster_var (start redi)))

-- parseNamingInstance's inner loop.
range_naming : ℕ → RedisConf → Loading → Loading
unfolding add_cluster assign_cluster
range_naming cv [] l = l
range_naming cv ((name, cluster) ∷ server) l =
    range_naming cv server (add_cluster cv name cluster (assign_cluster cv cluster l))

add_attr : Option RedisConf → Loading → Loading
unfolding range_naming new_cluster_var
add_attr none l = l
add_attr (some attr) l = range_naming (length l.vars.clusters) attr (new_cluster_var l)

-- `decode` is what StructuredAttr does with a string attribute.
range_instances : (Text → Option RedisConf) → RedisPool → List Instance → Loading → Loading
unfolding add_attr skips
range_instances decode redi [] l = l
range_instances decode redi (i ∷ is) l = range_instances decode redi is (
    if skips redi.idc i.idc
    then l
    else if skips redi.pub_env i.pub_env
    then l
    else add_attr (structured_attr decode i) l)

unfoldable pub parse_naming_instance :
    (Text → Option RedisConf) → List Instance → RedisPool → RedisPool
unfolding range_instances loaded start
parse_naming_instance decode [] redi = record redi { m_map = some []; s_map = some [] }
parse_naming_instance decode (i ∷ is) redi =
    loaded redi (range_instances decode redi (i ∷ is) (start redi))
