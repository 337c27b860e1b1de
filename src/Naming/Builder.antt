-- ===== src/Naming/Builder.antt =====
-- naming/etcd.go: discovery. What etcd answers to a Get is an argument: `none` for an error, or
-- the keys and values; `decode` is json.Unmarshal into an Instance.
pub mod Wakeup
pub mod Snapshot
pub mod Invariant
pub mod Seat
pub mod Token
mod Kept
use motor.Base.{
  ℕ, ◌+◌, ◌-◌, get_elem?, Text, lit, Dict, Bool, true, false, ◌&&◌, Option, none, some, List, [],
  ◌∷◌, ◌++◌, length, modify, is_empty, text_eq, lookup, insert, slice_at, append_at, ltb,
  if◌then◌else◌, ◌==◌,
}
use motor.Naming.Types.{
  Instance, InstancesInfo, ServerInfo, Resolve, EtcdConf, EtcdBuilder, Error, empty_sn, get_failed,
  bad_instance, Result, ok, err,
}

-- The builder that `create` makes.
abbrev pub new_builder : EtcdConf → EtcdBuilder
new_builder conf = record {
  conf = conf;
  servers = [];
  resolves = [];
  registry = [];
  watches = [];
  closed = false;
}

-- The entry of the service, or a new one.
server_of : Text → EtcdBuilder → ServerInfo
server_of sn e = elim (lookup sn e.servers) [
  | none ↦ record { sn = sn; resolver = []; ins = none; once = false }
  | some srv ↦ srv
]

-- srv.once.Do(go srv.watch)
start_watch : Text → ServerInfo → EtcdBuilder → EtcdBuilder
start_watch sn srv e = if srv.once then e else record e {
  servers = insert sn (record srv { once = true }) e.servers;
  watches = sn ∷ e.watches;
}

subscribe_to : Text → ServerInfo → EtcdBuilder → EtcdBuilder
unfolding start_watch
subscribe_to sn found e =
    let srv = record found { resolver = length e.resolves ∷ found.resolver } in
    start_watch sn srv (record e {
      servers = insert sn srv e.servers;
      resolves = e.resolves ++ (record { sn = sn; event = 0 } ∷ []);
    })

pub subscribe : Text → EtcdBuilder → EtcdBuilder
unfolding server_of subscribe_to
subscribe sn e = subscribe_to sn (server_of sn e) e

-- The result is the new *Resolve.
unfoldable pub discovery : Text → EtcdBuilder → Result ℕ × EtcdBuilder
unfolding subscribe
discovery sn e = if is_empty sn then (err empty_sn, e) else (ok (length e.resolves), subscribe sn e)

-- A send of one token that does not wait, on a channel of size 1.
signal : Resolve → Resolve
signal r = record r { event = if ltb r.event 1 then r.event + 1 else r.event }

unfoldable pub wake : List ℕ → List Resolve → List Resolve
unfolding signal modify
wake [] rs = rs
wake (r ∷ ids) rs = wake ids (modify r signal rs)

store_at : Text → InstancesInfo → ServerInfo → EtcdBuilder → EtcdBuilder
unfolding wake
store_at sn ins srv e = record e {
  servers = insert sn (record srv { ins = some ins }) e.servers;
  resolves = wake srv.resolver e.resolves;
}

-- One step, though srv.ins.Store comes before the lock is taken, so that a Fetch can see the
-- instances before the tokens are sent. The watch of a service works on the entry of the service, which is there from before its start
-- and is never taken out.
unfoldable pub store : Text → InstancesInfo → EtcdBuilder → EtcdBuilder
unfolding store_at
store sn ins e = elim (lookup sn e.servers) [ none ↦ e | some srv ↦ store_at sn ins srv e ]

unfoldable pub parse_loop :
    (Text → Option Instance) → InstancesInfo → List (Text × Text) → Result InstancesInfo
parse_loop decode m [] = ok m
parse_loop decode m ((k, v) ∷ kvs) = elim (decode v) [
  | none ↦ err bad_instance
  | some i ↦ parse_loop decode (append_at i.name i m) kvs
]

unfoldable pub parse_ins : (Text → Option Instance) → List (Text × Text) → Result InstancesInfo
unfolding parse_loop
parse_ins decode kvs = parse_loop decode [] kvs

no_kvs : List (Text × Text) → Bool
no_kvs [] = true
no_kvs (kv ∷ kvs) = false

store_parsed : Text → Result InstancesInfo → EtcdBuilder → EtcdBuilder
store_parsed sn (ok ins) e = store sn ins e
store_parsed sn (err x) e = e

-- Its errors are dropped by `watch`, its only caller.
unfoldable pub getstore :
    (Text → Option Instance) → Text → Text → Option (List (Text × Text)) → EtcdBuilder → EtcdBuilder
unfolding no_kvs store_parsed
getstore decode typ sn none e = e
getstore decode typ sn (some kvs) e =
    if text_eq typ (lit "get") && no_kvs kvs then e else store_parsed sn (parse_ins decode kvs) e

pub data EventType : Type 0 where
  put delete : EventType
  -- any value but these two
  unknown : EventType

-- One event of the watch, with what the Get after it answers.
on_event :
    (Text → Option Instance)
    → Text
    → EventType
    → Option (List (Text × Text))
    → EtcdBuilder
    → EtcdBuilder
on_event decode sn put resp e = getstore decode (lit "watch") sn resp e
on_event decode sn delete resp e = getstore decode (lit "watch") sn resp e
on_event decode sn unknown resp e = e

watch_loop :
    (Text → Option Instance)
    → Text
    → List (EventType × Option (List (Text × Text)))
    → EtcdBuilder
    → EtcdBuilder
unfolding on_event
watch_loop decode sn [] e = e
watch_loop decode sn ((typ, resp) ∷ events) e =
    watch_loop decode sn events (on_event decode sn typ resp e)

-- The goroutine of a service: the first Get, then one Get for each event until the channel closes.
unfoldable pub watch :
    (Text → Option Instance)
    → Text
    → Option (List (Text × Text))
    → List (EventType × Option (List (Text × Text)))
    → EtcdBuilder
    → EtcdBuilder
unfolding watch_loop
watch decode sn first events e =
    watch_loop decode sn events (getstore decode (lit "get") sn first e)

pub instances_of : Text → Option InstancesInfo → List Instance × Bool
instances_of sn none = ([], false)
instances_of sn (some ins) = (slice_at sn ins, true)

-- Resolve.Fetch, which reads nothing of the *Resolve but its service.
unfoldable pub fetch : Text → EtcdBuilder → List Instance × Bool
unfolding instances_of
fetch sn e = elim (lookup sn e.servers) [ none ↦ ([], false) | some srv ↦ instances_of sn srv.ins ]

without : ℕ → List ℕ → List ℕ
without r [] = []
without r (x ∷ xs) = let rest = without r xs in if r == x then rest else x ∷ rest

close_at : ℕ → Text → ServerInfo → EtcdBuilder → EtcdBuilder
unfolding without
close_at r sn srv e = if 0 == length srv.resolver then e else record e {
  servers = insert sn (record srv { resolver = without r srv.resolver }) e.servers;
}

-- Resolve.Close of the resolve `r` of the service.
unfoldable pub close_resolve : ℕ → Text → EtcdBuilder → EtcdBuilder
unfolding close_at
close_resolve r sn e = elim (lookup sn e.servers) [ none ↦ e | some srv ↦ close_at r sn srv e ]

take_token : Resolve → Resolve
take_token r = record r { event = r.event - 1 }

-- A receive from Resolve.Watch, when a token is there: `none` where it would wait.
unfoldable pub receive : ℕ → EtcdBuilder → Option EtcdBuilder
unfolding take_token modify
receive r e = elim (get_elem? e.resolves r) [
  | none ↦ none
  | some v ↦
      if v.event == 0 then none else some (record e { resolves = modify r take_token e.resolves })
]

-- The calls on a builder by the program and by the watches, one at a time: each holds the lock, or
-- is one channel operation.
pub data Call : Type 0 where
  discovers : Text → Call
  stores : Text → InstancesInfo → Call
  receives : ℕ → Call
  closes : ℕ → Text → Call

pub after_receive : EtcdBuilder → Option EtcdBuilder → EtcdBuilder
after_receive e none = e
after_receive e (some e') = e'

unfoldable pub step : EtcdBuilder → Call → EtcdBuilder
unfolding after_receive
step e (discovers sn) = (discovery sn e).1
step e (stores sn ins) = store sn ins e
step e (receives r) = after_receive e (receive r e)
step e (closes r sn) = close_resolve r sn e

unfoldable pub run : EtcdBuilder → List Call → EtcdBuilder
run e [] = e
run e (c ∷ cs) = run (step e c) cs

-- Close of the builder cancels its context; the client is closed too.
unfoldable pub close : EtcdBuilder → EtcdBuilder
close e = record e { closed = true }
