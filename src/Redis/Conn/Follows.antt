-- ===== src/Redis/Conn/Follows.antt =====
-- The redis pool that InitRedis loads from redis.toml, and the file as it changes.
use motor.Base.{Text, lit, ◌≡◌, subst, ◌∙◌, Option, none, some, List, ◌∷◌, ◌++◌, All}
use motor.Base.Outcome.{Outcome, returned, panicked, ◌>>=◌}
use motor.Conf.Settings
use motor.Conf.Watch.{Conf, def_ch_size, get}
use motor.Conf.Watch.Subscribe.{Call, run, run_keeps, IsValid}
use motor.Conf.Reload.{Turn, reads, follow}
use motor.Conf.Reload.Found.{IsStored, IsPresent, run-IsStored}
use motor.Conf.Reload.Synced.{IsCurrent, IsTurn, get-IsCurrent}
use motor.Conf.Reload.First.{first-IsCurrent}
use motor.Conf.Reload.Loaded.{IsIdle, rounds, begun, chan_of, follow-loads}
use motor.Redis.Types.{RedisConf, RedisPool, mode_file}
use motor.Redis.Load.{parse_file_conf}
use motor.Redis.Conn.{Sources, load, load_conf_from_file, or_panic, new_pool_of, init_redis}

abbrev pub redis_toml : Text
redis_toml = lit "redis.toml"

or_panic-some :
    (r : Outcome (Option RedisPool)) (p : RedisPool)
    → (do o ← r; q ← or_panic o; returned (some q)) ≡ returned (some p)
    → r ≡ returned (some p)
unfolding or_panic
or_panic-some panicked p e = cc
or_panic-some (returned none) p e = cc
or_panic-some (returned (some q)) p e = e

module _ (from_toml decode : Text → Option RedisConf) where
  load_first :
      (src : Sources) (c : Conf) (redi p : RedisPool)
      → src.client ≡ some c
      → load from_toml decode src redi mode_file ≡ returned (some p)
      → IsPresent redis_toml c × IsCurrent redis_toml from_toml parse_file_conf c (returned p)
  unfolding load load_conf_from_file Settings.get
  load_first src c redi p client e =
      let read = or_panic-some (load_conf_from_file from_toml src.client redi) p e in
      first-IsCurrent redis_toml from_toml parse_file_conf c redi p
        (subst (λ g. load_conf_from_file from_toml g redi ≡ returned (some p)) client read)

  -- A pool that InitRedis loads from redis.toml, by a valid object whose storage is that of its
  -- map of files, follows the file, where the text that Get finds under the file's name is the
  -- same at the goroutine's WatchEvent as it was at the load, whatever calls others made between
  -- the two: from there, whatever calls of the object others make, with other channels and with no
  -- change of a file whose name differs from it in case only, ten rounds of its own after them
  -- bring it to wait with its channel empty, though a full channel drops events; and then the pool
  -- is a load of what the file decodes to, or the file does not decode.
  pub init_redis-follows :
      (src : Sources) (c : Conf) (product_line idc pub_env : Text) (p : RedisPool) (gap : List Call)
      (ts : List Turn)
      → src.client ≡ some c
      → IsValid c
      → IsStored c
      → init_redis from_toml decode src none mode_file product_line idc pub_env ≡ returned (some p)
      → get (run c gap) redis_toml ≡ get c redis_toml
      → All
          (IsTurn redis_toml from_toml parse_file_conf
            (chan_of redis_toml from_toml parse_file_conf (run c gap)))
          ts
      → let c' = run c gap in
        let ch = chan_of redis_toml from_toml parse_file_conf c' in
        let s =
          follow redis_toml from_toml parse_file_conf ch
            (begun redis_toml from_toml parse_file_conf c' p)
            (ts ++ (reads ∷ rounds redis_toml from_toml parse_file_conf def_ch_size)) in
        IsIdle redis_toml from_toml parse_file_conf ch s
        × IsCurrent redis_toml from_toml parse_file_conf s.conf s.pool
  unfolding init_redis
  init_redis-follows src c product_line idc pub_env p gap ts client valid stored e same i =
      let ((v, found), current) =
        load_first src c (new_pool_of mode_file product_line idc pub_env) p client e in
      follow-loads redis_toml from_toml parse_file_conf (run c gap) p ts (run_keeps c gap valid)
        (run-IsStored c gap stored) (v, same ∙ found)
        (get-IsCurrent redis_toml from_toml parse_file_conf c (run c gap) (returned p) same current)
        i
