-- ===== src/Naming/Builder/Token.antt =====
-- A resolver gets a token with each store of its service, and keeps it until it takes it.
use motor.Base.{
  ℕ, ◌≤◌, Text, ◌≡◌, ◌≢◌, refl, ap, sym, ◌∙◌, ◌⊎◌, inl, inr, none, some, List, arith, count, modify,
  get_elem?, get_elem?-modify, get_elem?-append_left, get_elem?_in_range, lookup, text_eq,
  text_eq_iff, is_empty, Bool-cases, Option-cases, if◌then◌else◌, ◌==◌,
}
use motor.Naming.Types.{InstancesInfo, Resolve, EtcdBuilder}
use motor.Naming.Builder.{
  subscribe, store, receive, close_resolve, Call, discovers, stores, receives, closes,
  after_receive, step, take_token, fetch, instances_of,
}
use motor.Naming.Builder.Wakeup.{
  wake_lem, resolves-subscribe, store-wakes, receive-servers, resolves-receive,
  resolves-close_resolve,
}
use motor.Naming.Builder.Kept.{
  discovery-named, discovery-empty, snap, fetch-snap, snap-store, snap-subscribe,
  snap-close_resolve,
}
use motor.Naming.Builder.Seat.{Foreign, seat, seat-known}

-- The channel of a resolver has a token more, or what it had.
abbrev pub Holds : ℕ → List Resolve → ℕ → Type 0
Holds r rs n = (v : Resolve) × (get_elem? rs r ≡ some v) × (v.event ≤ 1) × (n ≤ v.event)

Holds-store :
    (r : ℕ) (sn : Text) (ins : InstancesInfo) (e : EtcdBuilder) (v : Resolve)
    → get_elem? e.resolves r ≡ some v
    → v.event ≤ 1
    → Holds r (store sn ins e).resolves v.event
unfolding store
Holds-store r sn ins e v here h = elim (Option-cases (lookup sn e.servers)) [
  | inl k ↦ rw (k, store) (v, here, h, omega arith)
  | inr (srv, k) ↦
      rw (k, store)
        (
          record v { event = if count r srv.resolver == 0 then v.event else 1 },
          wake_lem srv.resolver e.resolves r v here h,
          ground arith,
          ground arith,
        )
]

pub Holds-step :
    (r : ℕ) (e : EtcdBuilder) (c : Call) (v : Resolve)
    → Foreign r c
    → get_elem? e.resolves r ≡ some v
    → v.event ≤ 1
    → Holds r (step e c).resolves v.event
unfolding step
Holds-step r e (discovers sn') v f here h = elim (Bool-cases (is_empty sn')) [
  | inl z ↦ rw (discovery-empty sn' e z, step) (v, here, h, omega arith)
  | inr z ↦
      rw (discovery-named sn' e z, step)
        (
          v,
          rw (resolves-subscribe sn' e) (
              get_elem?-append_left e.resolves _ r (get_elem?_in_range e.resolves r v here) ∙ here),
          h,
          omega arith,
        )
]
Holds-step r e (stores sn' ins) v f here h = Holds-store r sn' ins e v here h
Holds-step r e (receives r') v f here h = (v, resolves-receive r r' e v f here, h, omega arith)
Holds-step r e (closes r' sn') v f here h =
    (v, rw (resolves-close_resolve r' sn' e) here, h, omega arith)

-- What the other calls leave of Fetch.
fetch-store_other :
    (sn sn' : Text) (ins : InstancesInfo) (e : EtcdBuilder)
    → sn' ≢ sn
    → fetch sn (store sn' ins e) ≡ fetch sn e
fetch-store_other sn sn' ins e ne =
    fetch-snap sn (store sn' ins e)
    ∙ ap (instances_of sn) (snap-store sn sn' ins e ne)
    ∙ sym (fetch-snap sn e)

fetch-subscribe : (sn sn' : Text) (e : EtcdBuilder) → fetch sn (subscribe sn' e) ≡ fetch sn e
fetch-subscribe sn sn' e =
    fetch-snap sn (subscribe sn' e)
    ∙ ap (instances_of sn) (snap-subscribe sn sn' e)
    ∙ sym (fetch-snap sn e)

fetch-close_resolve :
    (sn sn' : Text) (r : ℕ) (e : EtcdBuilder) → fetch sn (close_resolve r sn' e) ≡ fetch sn e
fetch-close_resolve sn sn' r e =
    fetch-snap sn (close_resolve r sn' e)
    ∙ ap (instances_of sn) (snap-close_resolve sn sn' r e)
    ∙ sym (fetch-snap sn e)

pub fetch-receive :
    (sn : Text) (r : ℕ) (e : EtcdBuilder) → fetch sn (after_receive e (receive r e)) ≡ fetch sn e
fetch-receive sn r e =
    fetch-snap sn (after_receive e (receive r e))
    ∙ ap (λ m. instances_of sn (snap sn m)) (receive-servers r e)
    ∙ sym (fetch-snap sn e)

-- A call that changes what Fetch gives is a store of the service, and leaves its resolvers a token.
abbrev pub Notices : ℕ → Text → EtcdBuilder → EtcdBuilder → Type 0
Notices r sn e e' =
    (fetch sn e' ≡ fetch sn e)
    ⊎ ((v : Resolve) × (get_elem? e'.resolves r ≡ some v) × (v.event ≡ 1))

pub step-Notices :
    (r : ℕ) (sn : Text) (e : EtcdBuilder) (c : Call) (v : Resolve)
    → seat r sn e.servers ≢ 0
    → get_elem? e.resolves r ≡ some v
    → v.event ≤ 1
    → Notices r sn e (step e c)
unfolding step
step-Notices r sn e (discovers sn') v seated here h = elim (Bool-cases (is_empty sn')) [
  | inl z ↦ rw (discovery-empty sn' e z, step) (inl refl)
  | inr z ↦ rw (discovery-named sn' e z, step) (inl (fetch-subscribe sn sn' e))
]
step-Notices r sn e (stores sn' ins) v seated here h = elim (Bool-cases (text_eq sn' sn)) [
  | inl same ↦
      let (srv, known, member) = seat-known r sn e.servers seated in
      let (token, now) = store-wakes sn ins e srv r v known member here h in
      rw ((text_eq_iff sn' sn).0 same) (inr (record v { event = 1 }, token, refl))
  | inr other ↦ inl (fetch-store_other sn sn' ins e (ground (arith, text_eq_iff sn' sn)))
]
step-Notices r sn e (receives r') v seated here h = inl (fetch-receive sn r' e)
step-Notices r sn e (closes r' sn') v seated here h = inl (fetch-close_resolve sn sn' r' e)

-- A receive waits, or takes the one token and leaves all else of the service.
abbrev pub Receives : ℕ → EtcdBuilder → Resolve → Type 0
Receives r e v =
    ((v.event ≡ 0) × (receive r e ≡ none))
    ⊎ ((e' : EtcdBuilder) × (receive r e ≡ some e')
        × (e'.servers ≡ e.servers)
        × ((v' : Resolve) × (get_elem? e'.resolves r ≡ some v') × (v'.event ≡ 0)))

pub receive-Receives :
    (r : ℕ) (e : EtcdBuilder) (v : Resolve)
    → get_elem? e.resolves r ≡ some v
    → v.event ≤ 1
    → Receives r e v
unfolding receive take_token
receive-Receives r e v here le = elim (Bool-cases (v.event == 0)) [
  | inl z ↦ inl (ground arith, rw (here, z, receive) refl)
  | inr z ↦
      let e' = record e { resolves = modify r take_token e.resolves } in
      inr (
        e',
        rw (here, receive, z) refl,
        refl,
        (take_token v, ground (arith, get_elem?-modify r r take_token e.resolves), ground arith),
      )
]
