-- ===== src/Naming/Builder/Wakeup.antt =====
-- No change of a service is lost for its resolvers: tokens and snapshots over any sequence of calls.
use motor.Base.{
  ℕ, ◌≤◌, Text, true, false, ◌≡◌, ◌≢◌, refl, ap, sym, ◌∙◌, inl, inr, some, List, [], ◌∷◌, ◌++◌,
  arith, All, length, count, modify, get_elem?, get_elem?-modify, get_elem?-append_left,
  get_elem?-append_self, get_elem?_in_range, lookup, slice_at, is_empty, Bool-cases, Option-cases,
  if◌then◌else◌, ◌==◌,
}
use motor.Naming.Types.{InstancesInfo, ServerInfo, Resolve, EtcdBuilder, ok}
use motor.Naming.Builder.{
  discovery, subscribe, subscribe_to, wake, signal, store, fetch, receive, close_resolve, Call,
  discovers, stores, receives, closes, after_receive, step, run, instances_of, server_of,
  take_token,
}
use motor.Naming.Builder.Snapshot.{fetch-store}
use motor.Naming.Builder.Kept.{
  snap, fetch-snap, snap-subscribe, snap-store, snap-close_resolve, discovery-named,
  discovery-empty,
}

pub wake_lem :
    (ids : List ℕ) (rs : List Resolve) (r : ℕ) (v : Resolve)
    → get_elem? rs r ≡ some v
    → v.event ≤ 1
    → get_elem? (wake ids rs) r
      ≡ some (record v { event = if count r ids == 0 then v.event else 1 })
unfolding wake count
wake_lem [] rs r v e h = ground arith
wake_lem (x ∷ ids) rs r v e h = elim (Bool-cases (x == r)) [
  | inl same ↦ ground (
    arith,
    wake_lem ids (modify x signal rs) r (record v { event = 1 }),
    get_elem?-modify x r signal rs,
    full,
  )
  | inr other ↦
      ground (arith, wake_lem ids (modify x signal rs) r v, get_elem?-modify x r signal rs)
]
  where
    full : signal v ≡ record v { event = 1 }
    full = unfold signal in ground arith

-- After a store each resolver of the service has its token, and Fetch gives what was stored.
pub store-wakes :
    (sn : Text) (ins : InstancesInfo) (e : EtcdBuilder) (srv : ServerInfo) (r : ℕ) (v : Resolve)
    → lookup sn e.servers ≡ some srv
    → count r srv.resolver ≢ 0
    → get_elem? e.resolves r ≡ some v
    → v.event ≤ 1
    → (get_elem? (store sn ins e).resolves r ≡ some (record v { event = 1 }))
      × (fetch sn (store sn ins e) ≡ (slice_at sn ins, true))
unfolding store
store-wakes sn ins e srv r v known member here h =
    (ground (arith, wake_lem srv.resolver e.resolves r v), fetch-store sn ins e srv known)

-- Neither a receive of the resolve nor a store of the service.
abbrev pub Apart : ℕ → Text → Call → Type 0
Apart r sn (discovers _) = Unit {0}
Apart r sn (stores sn' _) = sn' ≢ sn
Apart r sn (receives r') = r' ≢ r
Apart r sn (closes _ _) = Unit

signal_full : (v : Resolve) → v.event ≡ 1 → signal v ≡ v
unfolding signal
signal_full v h = ground arith

wake_kept :
    (ids : List ℕ) (rs : List Resolve) (r : ℕ) (v : Resolve)
    → get_elem? rs r ≡ some v
    → v.event ≡ 1
    → get_elem? (wake ids rs) r ≡ some v
unfolding wake
wake_kept [] rs r v e h = e
wake_kept (x ∷ ids) rs r v e h =
    ground
      (arith, wake_kept ids (modify x signal rs) r v, get_elem?-modify x r signal rs, signal_full v)

-- Receiving a token keeps every snapshot.
pub receive-servers :
    (r : ℕ) (e : EtcdBuilder) → (after_receive e (receive r e)).servers ≡ e.servers
unfolding receive after_receive
receive-servers r e = ground arith

pub resolves-subscribe :
    (sn : Text) (e : EtcdBuilder)
    → (subscribe sn e).resolves ≡ e.resolves ++ (record { sn = sn; event = 0 } ∷ [])
unfolding subscribe
resolves-subscribe sn e = go (server_of sn e)
  where
    go :
        (srv : ServerInfo)
        → (subscribe_to sn srv e).resolves ≡ e.resolves ++ (record { sn = sn; event = 0 } ∷ [])
    go srv = unfold subscribe_to in ground arith

resolves-store :
    (sn : Text) (ins : InstancesInfo) (e : EtcdBuilder) (r : ℕ) (v : Resolve)
    → get_elem? e.resolves r ≡ some v
    → v.event ≡ 1
    → get_elem? (store sn ins e).resolves r ≡ some v
unfolding store
resolves-store sn ins e r v here full = elim (Option-cases (lookup sn e.servers)) [
  | inl k ↦ rw (k, store) here
  | inr (srv, k) ↦ rw (k, store) (wake_kept srv.resolver e.resolves r v here full)
]

pub resolves-receive :
    (r r' : ℕ) (e : EtcdBuilder) (v : Resolve)
    → r' ≢ r
    → get_elem? e.resolves r ≡ some v
    → get_elem? (after_receive e (receive r' e)).resolves r ≡ some v
unfolding receive after_receive
resolves-receive r r' e v h here = ground (arith, get_elem?-modify r' r take_token e.resolves)

pub resolves-close_resolve :
    (r : ℕ) (sn : Text) (e : EtcdBuilder) → (close_resolve r sn e).resolves ≡ e.resolves
unfolding close_resolve
resolves-close_resolve r sn e = ground arith

step-Apart :
    (r : ℕ) (sn : Text) (v : Resolve) (e : EtcdBuilder) (c : Call)
    → Apart r sn c
    → get_elem? e.resolves r ≡ some v
    → v.event ≡ 1
    → (get_elem? (step e c).resolves r ≡ some v) × (snap sn (step e c).servers ≡ snap sn e.servers)
unfolding step
step-Apart r sn v e (discovers sn') a here full = elim (Bool-cases (is_empty sn')) [
  | inl z ↦ rw (discovery-empty sn' e z, step) (here, refl)
  | inr z ↦
      rw (discovery-named sn' e z, step)
        (
          rw (resolves-subscribe sn' e) (
              get_elem?-append_left e.resolves _ r (get_elem?_in_range e.resolves r v here) ∙ here),
          snap-subscribe sn sn' e,
        )
]
step-Apart r sn v e (stores sn' ins) a here full =
    (resolves-store sn' ins e r v here full, snap-store sn sn' ins e a)
step-Apart r sn v e (receives r') a here full =
    (resolves-receive r r' e v a here, ap (snap sn) (receive-servers r' e))
step-Apart r sn v e (closes r' sn') a here full =
    (rw (resolves-close_resolve r' sn' e) here, snap-close_resolve sn sn' r' e)

run-Apart :
    (r : ℕ) (sn : Text) (v : Resolve) (e : EtcdBuilder) (cs : List Call)
    → All (Apart r sn) cs
    → get_elem? e.resolves r ≡ some v
    → v.event ≡ 1
    → (get_elem? (run e cs).resolves r ≡ some v) × (snap sn (run e cs).servers ≡ snap sn e.servers)
unfolding run
run-Apart r sn v e [] a here full = (here, refl)
run-Apart r sn v e (c ∷ cs) a here full =
    let (here', same) = step-Apart r sn v e c a.0 here full in
    let (end, same') = run-Apart r sn v (step e c) cs a.1 here' full in (end, same' ∙ same)

-- After a store for a service, a resolver that was on it and had at most one token has a token and
-- Fetch gives what was stored, whatever calls follow, as long as none takes the token and none
-- stores for the service.
pub run-stores_pending :
    (sn : Text) (ins : InstancesInfo) (e : EtcdBuilder) (srv : ServerInfo) (r : ℕ) (v : Resolve)
    (cs : List Call)
    → lookup sn e.servers ≡ some srv
    → count r srv.resolver ≢ 0
    → get_elem? e.resolves r ≡ some v
    → v.event ≤ 1
    → All (Apart r sn) cs
    → (get_elem? (run e (stores sn ins ∷ cs)).resolves r ≡ some (record v { event = 1 }))
      × (fetch sn (run e (stores sn ins ∷ cs)) ≡ (slice_at sn ins, true))
unfolding run step
run-stores_pending sn ins e srv r v cs known member here h apart =
    let (token, now) = store-wakes sn ins e srv r v known member here h in
    let (token', same) =
      run-Apart r sn (record v { event = 1 }) (store sn ins e) cs apart token refl in
    (
      token',
      fetch-snap sn (run (store sn ins e) cs)
          ∙ ap (instances_of sn) same
          ∙ sym (fetch-snap sn (store sn ins e))
          ∙ now,
    )

watches-subscribe :
    (sn : Text) (e : EtcdBuilder) (srv : ServerInfo)
    → lookup sn e.servers ≡ some srv
    → srv.once ≡ true
    → (subscribe sn e).watches ≡ e.watches
unfolding subscribe
watches-subscribe sn e srv known started =
    rw (found, subscribe) (unfold subscribe_to in ground arith)
  where
    found : server_of sn e ≡ srv
    found = unfold server_of in ground arith

-- A Discovery of a service whose watch runs and has stored gives a resolver with no token and
-- starts no watch, though Fetch has the stored instances.
pub discovery-late :
    (sn : Text) (e : EtcdBuilder) (srv : ServerInfo) (ins : InstancesInfo)
    → is_empty sn ≡ false
    → lookup sn e.servers ≡ some srv
    → srv.ins ≡ some ins
    → srv.once ≡ true
    → let (r, e') = discovery sn e in
      (r ≡ ok (length e.resolves))
      × (get_elem? e'.resolves (length e.resolves) ≡ some (record { sn = sn; event = 0 }))
      × (e'.watches ≡ e.watches)
      × (fetch sn e' ≡ (slice_at sn ins, true))
unfolding instances_of
discovery-late sn e srv ins named known stored started =
    let old : snap sn e.servers ≡ some ins = unfold snap in ground arith in
    let now : snap sn (subscribe sn e).servers ≡ some ins = snap-subscribe sn sn e ∙ old in
    rw (discovery-named sn e named) (
      refl,
      rw (resolves-subscribe sn e) (get_elem?-append_self e.resolves _),
      watches-subscribe sn e srv known started,
      fetch-snap sn (subscribe sn e) ∙ ap (instances_of sn) now,
    )
