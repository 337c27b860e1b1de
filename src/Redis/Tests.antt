-- ===== src/Redis/Tests.antt =====
-- Runs of the redis pools, and their theorems at concrete inputs.
use motor.Base.{
  Dict, to_lower, base_name, inl, ℕ, ◌≡◌, refl, Text, lit, Option, none, some, true, false, List,
  ◌++◌, [], ◌∷◌, length, lookup, insert, modify, slice_at, count, arith, text_eq, is_empty, All,
  last_or, if◌then◌else◌,
}
use motor.Conf.Storage
use motor.Conf.Storage.{Value}
use motor.Conf.Watch.{Conf, get, watch_event}
use motor.Conf.Settings.{unmarshal_toml}
use motor.Conf.Watch.Subscribe.{Call, IsValid, run, watches, changes}
use motor.Conf.Reload
use motor.Conf.Reload.Synced
use motor.Conf.Reload.Loaded
use motor.Redis.Conn.{Sources, init_redis}
use motor.Conf.Settings
use motor.Redis.Conn.Follows.{redis_toml, init_redis-follows}
use motor.Naming.Types.{Instance, string}
use motor.Naming.Builder
use motor.Naming.Builder.{stores, discovers, receives, discovery, store, receive, fetch, step}
use motor.Naming.Builder.Seat.{seat}
use motor.Naming.Follow.{System, Turn, wakes, fetches, calls, wake, fetch_turn, turn, follow}
use motor.Naming.Follow.Synced.{IsTurn, IsIdle, IsSettled, follow-catches_up}
use motor.Redis.Types.{NodeConf, ClusterConf, RedisConf, RedisPool, dial_args, mode_file, write}
use motor.Redis.Load.{parse_file_conf, parse_naming_instance, skips}
use motor.Redis.Load.Capture.{DialsAs, pools_of, parse_file_conf-dials_last}
use motor.Redis.Load.Filter.{wanted, parse_naming_instance-wanted}

abbrev node : Text → NodeConf
node addr = record { addr = addr; password = [] }

abbrev cluster : ClusterConf
cluster = record {
  idc = lit "bj";
  master = node (lit "a") ∷ node (lit "b") ∷ [];
  slave = node (lit "c") ∷ [];
  max_idle = 2;
  max_active = 8;
  idle_timeout = 1;
  read_timeout = 1;
  write_timeout = 1;
  conn_timeout = 1;
  keep_alive = 1;
}

abbrev far_cluster : ClusterConf
far_cluster = record cluster { idc = lit "sh"; read_timeout = 9 }

abbrev cfg : RedisConf
cfg = (lit "user", cluster) ∷ (lit "far", far_cluster) ∷ []

abbrev redi : RedisPool
redi = record {
  product_line = [];
  idc = lit "bj";
  pub_env = [];
  conf_load_mode = mode_file;
  m_map = none;
  s_map = none;
  vars = record { nodes = []; clusters = [] };
}

parse_file_conf-dials_last_example :
    (length (pools_of write (parse_file_conf cfg redi) (lit "user")) ≡ 2)
    × All
        (DialsAs (parse_file_conf cfg redi) (dial_args (node (lit "b")) far_cluster) cluster)
        (pools_of write (parse_file_conf cfg redi) (lit "user"))
unfolding lookup skips is_empty text_eq last_or
parse_file_conf-dials_last_example =
    parse_file_conf-dials_last write cfg redi (lit "user") cluster (refl, (refl, tt)) refl refl

abbrev instance_in : Text → Instance
instance_in idc = record { name = lit "redis/p"; idc = idc; pub_env = []; attr = string idc }

abbrev decode : Text → Option RedisConf
decode s = if is_empty s then none else some cfg

parse_naming_instance-wanted_example :
    parse_naming_instance decode (instance_in (lit "bj") ∷ []) redi
    ≡ parse_naming_instance decode (instance_in (lit "sh") ∷ instance_in (lit "bj") ∷ []) redi
unfolding wanted is_empty text_eq
parse_naming_instance-wanted_example =
    parse_naming_instance-wanted decode redi (instance_in (lit "sh") ∷ instance_in (lit "bj") ∷ [])

-- The first pool is always chosen.
abbrev first : ℕ → ℕ
first n = 0

abbrev sn : Text
sn = lit "redis/p"

-- The loop's resolver 0 is on the service, which has stored nothing yet.
abbrev following : System RedisPool
following = record {
  builder = record {
    conf = record {
      lease_ttl = 30;
      dial_timeout = 5;
      sn_prefix = lit "/sn";
      addrs = lit "127.0.0.1:2379" ∷ [];
      basic_auth = false;
      username = lit "motor";
      password = lit "secret";
      tls_enable = false;
      cacert = [];
      server_cert = [];
      server_key = [];
    };
    servers = (sn, record { sn = sn; resolver = 0 ∷ []; ins = none; once = true }) ∷ [];
    resolves = record { sn = sn; event = 0 } ∷ [];
    registry = [];
    watches = sn ∷ [];
    closed = false;
  };
  woken = false;
  pool = redi;
}

-- A store that the loop meets between its receive and its Fetch, and one more after them.
abbrev turns : List Turn
turns =
    calls (stores sn [])
    ∷ wakes
    ∷ calls (stores sn ((sn, instance_in (lit "bj") ∷ []) ∷ []))
    ∷ calls (discovers sn)
    ∷ fetches
    ∷ calls (receives 1)
    ∷ wakes
    ∷ fetches
    ∷ []

abbrev load : List Instance → RedisPool → RedisPool
load = parse_naming_instance decode

turns-IsTurn : All (IsTurn 0) turns
turns-IsTurn = ground arith

turns-IsIdle : IsIdle load 0 sn following (follow load 0 sn following turns)
unfolding follow turn wake fetch_turn step discovery store receive fetch is_empty text_eq lookup
    insert modify parse_naming_instance slice_at Builder.wake
turns-IsIdle = (refl, (record { sn = sn; event = 0 }, refl, refl))

follow-catches_up_example :
    let s = follow load 0 sn following (turns ++ (fetches ∷ wakes ∷ fetches ∷ [])) in
    IsIdle load 0 sn following s × IsSettled load 0 sn following (fetch sn s.builder) s.pool
unfolding seat lookup count text_eq
follow-catches_up_example =
    follow-catches_up load 0 sn following (record { sn = sn; event = 0 }) turns (omega arith) refl
      (omega arith) turns-IsTurn

abbrev files : Dict Value
files = (redis_toml, record { raw = lit "a" }) ∷ []

abbrev object : Conf
object = record { raw = files; content = Storage.store files; watch_chs = []; chans = [] }

object-IsValid : IsValid object
unfolding slice_at lookup
object-IsValid = record { keyed = (refl, tt); bounded = tt; known = λ key. tt }

-- Before the goroutine watches, another does, and the file is changed and changed back.
abbrev gap : List Call
gap =
    watches (lit "mysql.toml" ∷ [])
    ∷ changes (lit "linux") (lit "/etc/redis.toml") (some (lit "b"))
    ∷ changes (lit "linux") (lit "/etc/redis.toml") (some (lit "a"))
    ∷ []

-- The file is changed twice, the second time to a text that does not decode, and another goroutine
-- watches it, too.
abbrev file_turns : List Reload.Turn
file_turns =
    Reload.calls (changes (lit "linux") (lit "/etc/redis.toml") (some (lit "b")))
    ∷ Reload.takes
    ∷ Reload.calls (watches (redis_toml ∷ []))
    ∷ Reload.calls (changes (lit "linux") (lit "/etc/redis.toml") (some []))
    ∷ []

file_turns-IsTurn : All (Synced.IsTurn redis_toml decode parse_file_conf 1) file_turns
unfolding base_name
file_turns-IsTurn = ((λ e. cc, inl refl), (tt, ((λ e. cc, tt), ((λ e. cc, inl refl), tt))))

abbrev loaded_twice : Reload.System RedisPool
loaded_twice =
    Reload.follow redis_toml decode parse_file_conf 1
      (Loaded.begun redis_toml decode parse_file_conf (run object gap) (parse_file_conf cfg redi))
      (file_turns ++ (Reload.reads ∷ Loaded.rounds redis_toml decode parse_file_conf 10))

abbrev with_file : Sources
with_file = record { client = some object; builder = none; fetches = [] }

init_redis-follows_example :
    Loaded.IsIdle redis_toml decode parse_file_conf 1 loaded_twice
    × Synced.IsCurrent redis_toml decode parse_file_conf loaded_twice.conf loaded_twice.pool
unfolding get Storage.get Storage.load Storage.store lookup insert text_eq Storage.key_name to_lower
    Reload.read_file unmarshal_toml Storage.raw watch_event init_redis Settings.get run
    motor.Conf.Watch.Subscribe.step motor.Conf.Watch.reload_file motor.Conf.Files.filter_hide_file
    motor.Base.has_prefix base_name motor.Conf.Files.filter_backup_file motor.Base.has_suffix
    slice_at motor.Base.append_at
init_redis-follows_example =
    init_redis-follows decode decode with_file object [] (lit "bj") [] (parse_file_conf cfg redi)
      gap file_turns refl object-IsValid refl refl refl file_turns-IsTurn
