-- ===== src/Conf/Tests.antt =====
-- Runs of the configuration library, and its theorems at concrete inputs.
use motor.Base.{
  ◌≡◌, refl, inl, inr, Text, lit, true, false, none, some, List, [], ◌∷◌, ◌++◌, if◌then◌else◌,
  arith, lookup, insert, slice_at, text_eq, text_ne, append_at, has_prefix, has_suffix, base_name,
  to_lower, get_elem?, occurrences,
}
use motor.Base.Outcome.{returned}
use motor.Conf.Storage
use motor.Conf.Storage.{Value, get-store, get-store_missing, key_name, store, load, Agrees}
use motor.Conf.Toml.{Codec, int64_value, map_value, Sets, set, unmarshal_text, text_of, set-Sets}
use motor.Conf.Files.{FileInfo, dir, ok, load_dir, filter_hide_file, filter_backup_file}
use motor.Conf.Watch.{Conf, Event, new_conf, get, watch_event, reload_file}
use motor.Conf.Watch.Notify.{Filtered, update_of, copies}
use motor.Conf.Watch.Subscribe.{IsValid, run, run_calls-IsValid, watch_event-reload_file}
use motor.Conf.Watch.Monitor.{reload_file-discards}

abbrev value : Text → Value
value t = record { raw = t }

abbrev linux : Text
linux = lit "linux"

abbrev files : List FileInfo
files =
    record { name = lit "Mysql.toml"; is_dir = false; content = some (lit "a=1") }
    ∷ record { name = lit "old"; is_dir = true; content = none }
    ∷ []

abbrev conf : Conf
conf = record {
  raw = (lit "Mysql.toml", value (lit "a=1")) ∷ [];
  content = record { values = some ((lit "mysql.toml", value (lit "a=1")) ∷ []) };
  watch_chs = [];
  chans = [];
}

abbrev path : Text
path = lit "/etc/Mysql.toml"

new_conf_reads : new_conf (dir (some files)) ≡ ok conf
unfolding new_conf load_dir store key_name to_lower insert text_eq
new_conf_reads = refl

not-Filtered : ¬ Filtered linux path
unfolding filter_hide_file filter_backup_file text_eq base_name has_prefix has_suffix
not-Filtered (inl e) = cc
not-Filtered (inr e) = cc

same_name : key_name (base_name path) ≡ key_name (lit "MYSQL.toml")
unfolding key_name to_lower base_name
same_name = refl

get-store_missing_example : Storage.get (store conf.raw) (lit "redis.toml") ≡ returned none
unfolding key_name to_lower text_eq
get-store_missing_example =
    get-store_missing conf.raw (lit "redis.toml")
      (text_ne (key_name (lit "Mysql.toml")) (key_name (lit "redis.toml")) refl, tt)

conf-IsValid : IsValid conf
unfolding run
conf-IsValid = run_calls-IsValid (dir (some files)) conf [] new_conf_reads

watch_event-reload_file_example :
    get_elem?
      (reload_file linux path (some (lit "a=2")) (watch_event (lit "Mysql.toml" ∷ []) conf).1).chans
      (watch_event (lit "Mysql.toml" ∷ []) conf).0
    ≡ some (update_of (lit "Mysql.toml") (lit "a=2") ∷ [])
unfolding base_name occurrences copies text_eq
watch_event-reload_file_example =
    watch_event-reload_file linux path (lit "a=2") (lit "Mysql.toml" ∷ []) conf not-Filtered
      conf-IsValid

-- A name in another case stands for no file's changes, though Get finds the file by it.
other_case :
    (get_elem?
        (reload_file linux path
          (some (lit "a=2"))
          (watch_event (lit "mysql.toml" ∷ []) conf).1).chans
        0
      ≡ some [])
    × (get (reload_file linux path (some (lit "a=2")) conf) (lit "mysql.toml")
        ≡ returned (some (value (lit "a=2"))))
unfolding get reload_file watch_event filter_hide_file filter_backup_file text_eq base_name
    has_prefix has_suffix store load key_name to_lower insert lookup slice_at append_at Storage.get
other_case = (refl, refl)

abbrev full : List Event
full =
    update_of path []
    ∷ update_of path []
    ∷ update_of path []
    ∷ update_of path []
    ∷ update_of path []
    ∷ update_of path []
    ∷ update_of path []
    ∷ update_of path []
    ∷ update_of path []
    ∷ update_of path []
    ∷ []

abbrev crowded : Conf
crowded = record conf { watch_chs = (lit "Mysql.toml", 0 ∷ []) ∷ []; chans = full ∷ [] }

reload_file-discards_example :
    (get_elem? (reload_file linux path (some (lit "a=2")) crowded).chans 0 ≡ some full)
    × (get (reload_file linux path (some (lit "a=2")) crowded) (lit "MYSQL.toml")
        ≡ returned (some (value (lit "a=2"))))
unfolding lookup base_name
reload_file-discards_example =
    reload_file-discards linux path (lit "a=2") (lit "MYSQL.toml") crowded 0 full not-Filtered
      (refl, tt) (λ _. refl, tt) same_name refl (omega arith)

-- A TOML library that knows two documents.
abbrev codec : Codec Text
codec = record {
  unmarshal = λ text.
      if text_eq text (lit "bad")
      then none
      else some ((lit "Port", int64_value (lit "80")) ∷ (lit "Db", map_value (lit "host")) ∷ []);
  encode_map = λ v. some (v ++ lit "=1");
  encode_slice = λ k v. some (k ++ v);
  format_bool = λ v. v;
  format_int = λ v. v;
  format_float = λ v. v;
}

set-Sets_example :
    Sets codec (codec.unmarshal (lit "ok")) conf.content (set codec (lit "ok") conf.content)
set-Sets_example = set-Sets codec (lit "ok") conf.content

set_reads :
    Storage.get (set codec (lit "ok") conf.content).1 (lit "DB")
    ≡ returned (some (value (lit "host=1")))
unfolding set unmarshal_text text_of text_eq Storage.get store load insert lookup key_name to_lower
set_reads = refl

set_refuses : set codec (lit "bad") conf.content ≡ (false, conf.content)
unfolding set unmarshal_text text_eq
set_refuses = refl
