-- ===== src/Naming/Builder/Kept.antt =====
-- Which calls keep the snapshot that a service has.
use motor.Base.{
  ℕ, Text, Dict, true, false, ◌≡◌, ◌≢◌, ap, inl, inr, Option, none, some, ◌∷◌, arith, length,
  lookup, lookup-insert, insert, text_eq, text_eq_iff, is_empty, Bool-cases, Option-cases,
  if◌then◌else◌, ◌==◌,
}
use motor.Naming.Types.{InstancesInfo, ServerInfo, EtcdBuilder, ok, err, empty_sn}
use motor.Naming.Builder.{
  discovery, subscribe, subscribe_to, store, fetch, close_resolve, instances_of, server_of, without,
}

-- The snapshot of a service, if it is known and one was stored.
unfoldable pub snap : Text → Dict ServerInfo → Option InstancesInfo
snap sn m = elim (lookup sn m) [ none ↦ none | some srv ↦ srv.ins ]

pub fetch-snap : (sn : Text) (e : EtcdBuilder) → fetch sn e ≡ instances_of sn (snap sn e.servers)
unfolding fetch snap instances_of
fetch-snap sn e = ground arith

snap-insert :
    (sn sn' : Text) (srv : ServerInfo) (m : Dict ServerInfo)
    → snap sn (insert sn' srv m) ≡ (if text_eq sn' sn then srv.ins else snap sn m)
unfolding snap
snap-insert sn sn' srv m = ground (arith, lookup-insert sn' sn srv m)

-- A write that keeps the snapshot of its own service keeps them all.
snap-insert_keep :
    (sn sn' : Text) (srv : ServerInfo) (m : Dict ServerInfo)
    → srv.ins ≡ snap sn' m
    → snap sn (insert sn' srv m) ≡ snap sn m
snap-insert_keep sn sn' srv m k =
    ground (arith, snap-insert sn sn' srv m, text_eq_iff sn' sn, ap (λ (q : Text). snap q m))

snap-subscribe_to :
    (sn sn' : Text) (srv : ServerInfo) (e : EtcdBuilder)
    → srv.ins ≡ snap sn' e.servers
    → snap sn (subscribe_to sn' srv e).servers ≡ snap sn e.servers
unfolding subscribe_to
snap-subscribe_to sn sn' srv e k =
    let srv' = record srv { resolver = length e.resolves ∷ srv.resolver } in
    let once_more = snap-insert sn sn' srv' e.servers in
    ground (
      arith,
      snap-insert_keep sn sn' srv' e.servers k,
      snap-insert sn sn' (record srv' { once = true }) (insert sn' srv' e.servers),
      snap-insert sn sn' srv' e.servers,
    )

pub snap-subscribe :
    (sn sn' : Text) (e : EtcdBuilder) → snap sn (subscribe sn' e).servers ≡ snap sn e.servers
unfolding subscribe
snap-subscribe sn sn' e =
    snap-subscribe_to sn sn' (server_of sn' e) e (unfold snap server_of in ground arith)

pub snap-store :
    (sn sn' : Text) (ins : InstancesInfo) (e : EtcdBuilder)
    → sn' ≢ sn
    → snap sn (store sn' ins e).servers ≡ snap sn e.servers
unfolding store
snap-store sn sn' ins e h = elim (Option-cases (lookup sn' e.servers)) [
  | inl k ↦ rw (k, store)
  | inr (srv, k) ↦
      rw (k, store)
        (ground
          (arith, snap-insert sn sn' (record srv { ins = some ins }) e.servers, text_eq_iff sn' sn))
]

pub snap-close_resolve :
    (sn sn' : Text) (r : ℕ) (e : EtcdBuilder)
    → snap sn (close_resolve r sn' e).servers ≡ snap sn e.servers
unfolding close_resolve
snap-close_resolve sn sn' r e = elim (Option-cases (lookup sn' e.servers)) [
  | inl k ↦ rw (k, close_resolve)
  | inr (srv, k) ↦
      rw (k, close_resolve)
        (elim (Bool-cases (0 == length srv.resolver)) [
          | inl z ↦ rw z
          | inr z ↦ rw z (
              snap-insert_keep sn sn' (record srv { resolver = without r srv.resolver }) e.servers
                (unfold snap in rw (k, snap)))
        ])
]

pub discovery-named :
    (sn : Text) (e : EtcdBuilder)
    → is_empty sn ≡ false
    → discovery sn e ≡ (ok (length e.resolves), subscribe sn e)
unfolding discovery
discovery-named sn e z = rw (z, discovery)

pub discovery-empty :
    (sn : Text) (e : EtcdBuilder) → is_empty sn ≡ true → discovery sn e ≡ (err empty_sn, e)
unfolding discovery
discovery-empty sn e z = rw (z, discovery)
