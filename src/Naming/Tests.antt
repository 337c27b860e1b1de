-- ===== src/Naming/Tests.antt =====
-- Runs of the naming service, and its theorems at concrete inputs.
use motor.Base.{
  ℕ, ◌≡◌, refl, Text, lit, Dict, Bool, true, false, Option, none, some, List, [], ◌∷◌, arith,
  lookup, lookup-insert, lookup-remove, insert, remove, slice_at, text_eq, text_ne, is_empty,
  get_elem?, count, has_suffix, trim_right, if◌then◌else◌,
}
use motor.Base.Outcome.{returned}
use motor.Naming.Types.{
  Instance, string, EtcdConf, EtcdBuilder, ServerInfo, ok, err, duplicate_register, put_failed,
}
use motor.Naming.Key.{key, instance_key}
use motor.Naming.Builder.{
  new_builder, discovery, fetch, getstore, Call, discovers, stores, receives, closes, step, run,
}
use motor.Naming.Builder.Snapshot.{named, fetch-getstore}
use motor.Naming.Builder.Wakeup.{run-stores_pending, discovery-late}
use motor.Naming.Builder.Invariant.{IsValid, run_builder-IsValid}
use motor.Naming.Register.{
  EtcdClient, tick, ctx_done, register, unregister, renew, lacks_argument, register_lease,
}
use motor.Naming.Register.Lease.{EtcdLaws, register_ok, register_err, renew-cancelled}
use motor.Naming.Register.Again
use motor.Naming.Register.Again.{register_again}

abbrev conf : EtcdConf
conf = record {
  lease_ttl = 30;
  dial_timeout = 5;
  sn_prefix = lit "/sn";
  addrs = lit "127.0.0.1:2379" ∷ [];
  basic_auth = false;
  username = lit "motor";
  password = lit "secret";
  tls_enable = false;
  cacert = [];
  server_cert = [];
  server_key = [];
}

abbrev pub instance_of : Text → Instance
instance_of sn = record {
  name = sn;
  idc = lit "bj";
  pub_env = lit "prod";
  attr = string (lit "{}");
}

keys :
    (key conf (lit "db" ∷ []) ≡ lit "/sn/db")
    × (instance_key conf (instance_of (lit "db")) ≡ lit "/sn/db/bj/prod")
unfolding key has_suffix trim_right
keys = (refl, refl)

-- The value of an instance is its name.
abbrev decode : Text → Option Instance
decode v = if is_empty v then none else some (instance_of v)

abbrev pub sn : Text
sn = lit "db"

abbrev server : ServerInfo
server = record { sn = sn; resolver = 0 ∷ []; ins = none; once = true }

abbrev watching : EtcdBuilder
watching = record (new_builder conf) {
  servers = (sn, server) ∷ [];
  resolves = record { sn = sn; event = 0 } ∷ [];
  watches = sn ∷ [];
}

discovers_service : run (new_builder conf) (discovers sn ∷ []) ≡ watching
unfolding run step discovery insert lookup is_empty text_eq
discovers_service = refl

run_builder-IsValid_example :
    IsValid (run (new_builder conf) (discovers sn ∷ stores sn [] ∷ receives 0 ∷ []))
run_builder-IsValid_example =
    run_builder-IsValid conf (discovers sn ∷ stores sn [] ∷ receives 0 ∷ [])

abbrev answer : List (Text × Text)
answer = (lit "/sn/db/bj", lit "db") ∷ (lit "/sn/db2/bj", lit "db2") ∷ []

fetch-getstore_example :
    fetch sn (getstore decode (lit "watch") sn (some answer) watching) ≡ (instance_of sn ∷ [], true)
unfolding lookup named text_eq is_empty
fetch-getstore_example =
    fetch-getstore decode sn answer (instance_of sn ∷ instance_of (lit "db2") ∷ []) watching server
      refl (refl, (refl, tt))

abbrev other_calls : List Call
other_calls = discovers sn ∷ stores (lit "mq") [] ∷ receives 1 ∷ closes 0 sn ∷ []

run-stores_pending_example :
    (get_elem? (run watching (stores sn [] ∷ other_calls)).resolves 0
      ≡ some (record { sn = sn; event = 1 }))
    × (fetch sn (run watching (stores sn [] ∷ other_calls)) ≡ ([], true))
unfolding lookup count slice_at text_eq
run-stores_pending_example =
    run-stores_pending sn [] watching server 0 (record { sn = sn; event = 0 }) other_calls refl
      (omega arith) refl (omega arith) (tt, (text_ne (lit "mq") sn refl, (omega arith, (tt, tt))))

abbrev stored_server : ServerInfo
stored_server = record server { ins = some [] }

discovery-late_example :
    get_elem? (discovery sn (record watching { servers = (sn, stored_server) ∷ [] })).1.resolves 1
    ≡ some (record { sn = sn; event = 0 })
unfolding lookup is_empty text_eq
discovery-late_example =
    (discovery-late sn (record watching { servers = (sn, stored_server) ∷ [] }) stored_server []
      refl refl refl refl).1

-- A cluster that fails a put with a cancelled context, and nothing else.
abbrev pub etcd : EtcdClient
etcd = record {
  World = Dict Text;
  grant = λ ttl w. (some ttl, w);
  put = λ cancelled k v lease w. if cancelled then (false, w) else (true, insert k v w);
  delete = λ k w. (true, remove k w);
}

abbrev stored_at : Dict Text → Text → Option Text
stored_at w k = lookup k w

put-stored :
    (c : Bool) (k v : Text) (lease : ℕ) (w : Dict Text) (j : Text)
    → (etcd.put c k v lease w).0 ≡ true
    → stored_at (etcd.put c k v lease w).1 j ≡ (if text_eq k j then some v else stored_at w j)
put-stored true k v lease w j h = cc
put-stored false k v lease w j h = lookup-insert k j v w

abbrev etcd_laws : EtcdLaws etcd
etcd_laws = record {
  stored = stored_at;
  stored-grant = λ ttl w k. refl;
  stored-put = put-stored;
  stored-delete = λ k w j h. lookup-remove k j w;
}

abbrev pub marshal : Instance → Text
marshal i = i.name

abbrev pub registered : EtcdBuilder
registered = record (new_builder conf) { registry = (sn, tt) ∷ [] }

abbrev db_key : Text
db_key = lit "/sn/db/bj/prod"

registers :
    register etcd marshal (instance_of sn) (new_builder conf) []
    ≡ (ok tt, registered, (db_key, sn) ∷ [])
unfolding register register_lease lacks_argument is_empty lookup insert remove text_eq key
    has_suffix trim_right
registers = refl

register_ok_example : lookup db_key ((db_key, sn) ∷ []) ≡ some sn
unfolding key has_suffix trim_right
register_ok_example =
    (register_ok etcd marshal etcd_laws (instance_of sn) (new_builder conf) registered []
      ((db_key, sn) ∷ []) registers).3

-- The registration is cancelled, and another name is registered.
abbrev cancelled : List (Again.Call (Dict Text))
cancelled = Again.unregisters (instance_of sn) ∷ Again.registers (instance_of (lit "other")) ∷ []

register_again_example :
    let (b, v) = Again.run etcd marshal (registered, (db_key, sn) ∷ []) cancelled in
    register etcd marshal (instance_of sn) b v ≡ (err duplicate_register, b, v)
unfolding lacks_argument is_empty
register_again_example =
    register_again etcd marshal etcd_laws (instance_of sn) (instance_of sn) (new_builder conf)
      registered [] ((db_key, sn) ∷ []) cancelled registers refl refl

abbrev closed_builder : EtcdBuilder
closed_builder = record (new_builder conf) { closed = true }

register_fails :
    register etcd marshal (instance_of sn) closed_builder [] ≡ (err put_failed, closed_builder, [])
unfolding register register_lease lacks_argument is_empty lookup insert remove text_eq key
    has_suffix trim_right
register_fails = refl

register_err_example : lookup sn closed_builder.registry ≡ lookup sn closed_builder.registry
register_err_example =
    register_err etcd marshal etcd_laws (instance_of sn) closed_builder closed_builder [] []
      put_failed sn register_fails

renew-cancelled_example :
    (w' : Dict Text) × (renew etcd marshal registered
        (instance_of sn)
        (tick false ∷ tick true ∷ ctx_done ∷ tick false ∷ [])
        []
      ≡ returned (true, (unregister etcd marshal registered (instance_of sn) w').2))
    × ((unregister etcd marshal registered (instance_of sn) w').0 ≡ ok tt
        → lookup
            (instance_key conf (instance_of sn))
            (unregister etcd marshal registered (instance_of sn) w').2
          ≡ none)
renew-cancelled_example =
    renew-cancelled etcd marshal etcd_laws registered (instance_of sn) (tick false ∷ tick true ∷ [])
      (tick false ∷ []) [] (omega arith) (tt, (tt, tt))
