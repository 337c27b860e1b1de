-- ===== src/Mysql/Tests.antt =====
-- Runs of the mysql pools, and their theorems at concrete inputs.
use motor.Base.{
  ℕ, ◌≡◌, ◌⊎◌, inl, refl, Text, lit, Bool, not, if◌then◌else◌, Option, none, some, List, [], ◌∷◌,
  map, In, lookup, slice_at, append_at, insert, text_eq, is_empty,
}
use motor.Base.Outcome.{returned}
use motor.Naming.Types.{Instance, string, structured_attr}
use motor.Mysql.Types.{
  NodeConf, ClusterConf, MysqlConf, Source, source_of, settings_of, Handle, State, mode_file,
  OpMode, read, write,
}
use motor.Mysql.Load.{parse_file_conf, parse_naming_instance, close, close_db, close_dbs}
use motor.Mysql.Load.Listed.{dbs_of, listed, attr_listed, registered, reachable}
use motor.Mysql.Load.Reached.{settings, parse_file_conf-reachable, parse_naming_instance-reachable}
use motor.Mysql.Load.Reload.{
  of_file, step, run, new_pool, IsValid, run-IsValid, run-live, close-run,
}
use motor.Mysql.Conn.{get_db, ok, err, uninitialized, no_such_db}
use motor.Mysql.Conn.Choice.{get_db-run}

abbrev node : Text → NodeConf
node ip = record { username = lit "motor"; password = []; ip = ip; port = 3306 }

abbrev cluster : ClusterConf
cluster = record {
  idc = lit "bj";
  master = node (lit "a") ∷ node (lit "b") ∷ [];
  slave = node (lit "c") ∷ [];
  conn_max_lifetime = 60;
  max_open_conns = 8;
  max_idle_conns = 2;
  conn_timeout = 1;
  read_timeout = 1;
  write_timeout = 1;
}

abbrev cfg : MysqlConf
cfg = (lit "user", cluster) ∷ (lit "far", record cluster { idc = lit "sh" }) ∷ []

abbrev pool : State
pool = new_pool mode_file [] (lit "bj") []

-- The server `b` is down.
abbrev is_up : Source → Bool
is_up source = not (text_eq source.ip (lit "b"))

abbrev answers : ℕ → Source → Bool
answers n source = is_up source

parse_file_conf-reachable_example :
    map settings (dbs_of write (parse_file_conf answers cfg pool).my (lit "user"))
    ≡ settings_of (lit "user") cluster (node (lit "a")) ∷ []
unfolding reachable listed text_eq is_empty settings_of source_of
parse_file_conf-reachable_example =
    parse_file_conf-reachable answers is_up (λ n source. refl) write cfg pool (lit "user")

far_empty : map settings (dbs_of write (parse_file_conf answers cfg pool).my (lit "far")) ≡ []
unfolding reachable listed text_eq is_empty settings_of source_of parse_file_conf lookup slice_at
    append_at insert
far_empty = refl

abbrev instance_in : Text → Instance
instance_in idc = record {
  name = lit "mysql/p";
  idc = idc;
  pub_env = [];
  attr = string (lit "cfg");
}

abbrev decode : Text → Option MysqlConf
decode text = if text_eq text (lit "cfg") then some cfg else none

abbrev services : List Instance
services = instance_in (lit "sh") ∷ instance_in (lit "bj") ∷ instance_in (lit "bj") ∷ []

-- idc of a cluster does not count here: `far` is listed by both instances.
parse_naming_instance-reachable_example :
    map settings (dbs_of read (parse_naming_instance answers decode services pool).my (lit "far"))
    ≡ settings_of (lit "far") cluster (node (lit "c"))
      ∷ settings_of (lit "far") cluster (node (lit "c"))
      ∷ []
unfolding reachable registered attr_listed listed text_eq is_empty settings_of source_of
    structured_attr
parse_naming_instance-reachable_example =
    parse_naming_instance-reachable answers is_up (λ n source. refl) read decode services pool
      (lit "far")

pool-IsValid : IsValid pool
pool-IsValid = record {
  below = λ g j. absurd j;
  m_open = λ g j. absurd j;
  s_open = λ g j. absurd j;
}

-- After one load: the first attempt was for the first master.
abbrev after_load : State
after_load = run (of_file answers cfg ∷ []) pool

abbrev first_db : Handle
first_db = record { id = 0; settings = settings_of (lit "user") cluster (node (lit "a")) }

first_db_serves : In first_db (dbs_of write after_load.my (lit "user"))
unfolding run step parse_file_conf text_eq is_empty settings_of source_of slice_at append_at insert
    lookup
first_db_serves = inl refl

first_db_open : In first_db after_load.driver.live
first_db_open =
    run-live (of_file answers cfg ∷ []) mode_file [] (lit "bj") [] write (lit "user") first_db
      first_db_serves

close-run_example :
    In first_db (run (of_file answers cfg ∷ []) after_load).driver.live
    × In first_db (close (run (of_file answers cfg ∷ []) after_load)).driver.live
    × ((m : OpMode) (name : Text)
        → ¬ In first_db (dbs_of m (run (of_file answers cfg ∷ []) after_load).my name))
close-run_example =
    close-run (of_file answers cfg) [] after_load first_db
      (run-IsValid (of_file answers cfg ∷ []) pool pool-IsValid) first_db_open

-- A handle that was open before the pool's one load.
abbrev strange_db : Handle
strange_db = record { id = 7; settings = settings_of (lit "far") cluster (node (lit "a")) }

abbrev shared : State
shared = record after_load { driver = record { attempts = 8; live = first_db ∷ strange_db ∷ [] } }

strange_db_kept : In strange_db (close shared).driver.live
unfolding close close_db close_dbs run step parse_file_conf text_eq is_empty settings_of source_of
    slice_at append_at insert lookup
strange_db_kept = inl refl

-- The first handle is always chosen.
abbrev first : ℕ → ℕ
first n = 0

get_db-run_example :
    let s = run (of_file answers cfg ∷ []) (new_pool mode_file [] (lit "bj") []) in
    ((dbs_of write s.my (lit "user") ≡ [])
      × ((get_db first s.my (lit "user") write ≡ returned (err uninitialized))
          ⊎ (get_db first s.my (lit "user") write ≡ returned (err no_such_db))))
    ⊎ ((db : Handle) × (get_db first s.my (lit "user") write ≡ returned (ok db))
        × In db (dbs_of write s.my (lit "user"))
        × In db s.driver.live)
get_db-run_example =
    get_db-run first (λ n h. h) (of_file answers cfg ∷ []) mode_file [] (lit "bj") [] write
      (lit "user")
