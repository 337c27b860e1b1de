-- ===== src/Naming/Builder/Seat.antt =====
-- A resolver stays with its service, whatever calls the other goroutines make.
use motor.Base.{
  ℕ, ◌≤◌, Text, Dict, ◌≡◌, ◌≢◌, refl, ap, inl, inr, none, some, List, [], ◌∷◌, arith, length, count,
  lookup, lookup-insert, insert, text_eq, text_eq_iff, text_eq_refl, is_empty, Bool-cases,
  Option-cases, if◌then◌else◌, ◌==◌,
}
use motor.Naming.Types.{InstancesInfo, ServerInfo, EtcdBuilder}
use motor.Naming.Builder.{
  subscribe, subscribe_to, start_watch, store, close_resolve, Call, discovers, stores, receives,
  closes, step, server_of, without,
}
use motor.Naming.Builder.Wakeup.{receive-servers}
use motor.Naming.Builder.Kept.{discovery-named, discovery-empty}

-- The other goroutines have their own resolvers.
abbrev pub Foreign : ℕ → Call → Type 0
Foreign r (discovers _) = Unit {0}
Foreign r (stores _ _) = Unit {0}
Foreign r (receives r') = r' ≢ r
Foreign r (closes r' _) = r' ≢ r

-- How often a resolver stands with a service.
unfoldable pub seat : ℕ → Text → Dict ServerInfo → ℕ
seat r sn m = elim (lookup sn m) [ none ↦ 0 | some srv ↦ count r srv.resolver ]

seat-insert :
    (r : ℕ) (sn sn' : Text) (srv : ServerInfo) (m : Dict ServerInfo)
    → seat r sn (insert sn' srv m) ≡ (if text_eq sn' sn then count r srv.resolver else seat r sn m)
unfolding seat
seat-insert r sn sn' srv m = ground (arith, lookup-insert sn' sn srv m)

seat-le-insert :
    (r : ℕ) (sn sn' : Text) (srv : ServerInfo) (m : Dict ServerInfo)
    → seat r sn' m ≤ count r srv.resolver
    → seat r sn m ≤ seat r sn (insert sn' srv m)
seat-le-insert r sn sn' srv m h =
    ground (arith, seat-insert r sn sn' srv m, text_eq_iff sn' sn, ap (λ (q : Text). seat r q m))

seat-le-insert_twice :
    (r : ℕ) (sn sn' : Text) (srv srv' : ServerInfo) (m : Dict ServerInfo)
    → seat r sn' m ≤ count r srv.resolver
    → srv'.resolver ≡ srv.resolver
    → seat r sn m ≤ seat r sn (insert sn' srv' (insert sn' srv m))
seat-le-insert_twice r sn sn' srv srv' m h e =
    let here = seat-insert r sn' sn' srv m in
    let again : seat r sn' (insert sn' srv m) ≤ count r srv'.resolver =
      ground (arith, here, text_eq_refl sn', e) in
    omega (
      arith,
      seat-le-insert r sn sn' srv m h,
      seat-le-insert r sn sn' srv' (insert sn' srv m) again,
    )

seat-le-subscribe_to :
    (r : ℕ) (sn sn' : Text) (srv : ServerInfo) (e : EtcdBuilder)
    → seat r sn' e.servers ≤ count r (length e.resolves ∷ srv.resolver)
    → seat r sn e.servers ≤ seat r sn (subscribe_to sn' srv e).servers
unfolding subscribe_to start_watch
seat-le-subscribe_to r sn sn' srv e h = elim (Bool-cases srv.once) [
  | inl o ↦ rw (o, subscribe_to, start_watch) (seat-le-insert r sn sn' _ e.servers h)
  | inr o ↦ rw (o, subscribe_to, start_watch) (seat-le-insert_twice r sn sn' _ _ e.servers h refl)
]

seat-le-subscribe :
    (r : ℕ) (sn sn' : Text) (e : EtcdBuilder)
    → seat r sn e.servers ≤ seat r sn (subscribe sn' e).servers
unfolding subscribe
seat-le-subscribe r sn sn' e =
    seat-le-subscribe_to r sn sn' (server_of sn' e) e (unfold seat server_of count in ground arith)

seat-le-store :
    (r : ℕ) (sn sn' : Text) (ins : InstancesInfo) (e : EtcdBuilder)
    → seat r sn e.servers ≤ seat r sn (store sn' ins e).servers
unfolding store
seat-le-store r sn sn' ins e = elim (Option-cases (lookup sn' e.servers)) [
  | inl k ↦ rw (k, store) (omega arith)
  | inr (srv, k) ↦
      rw (k, store)
        (seat-le-insert r sn sn' (record srv { ins = some ins }) e.servers
          (unfold seat in rw (k, seat) (omega arith)))
]

count-without : (r r' : ℕ) (xs : List ℕ) → r' ≢ r → count r (without r' xs) ≡ count r xs
unfolding count without
count-without r r' [] h = refl
count-without r r' (x ∷ xs) h = ground (arith, count-without r r' xs h)

seat-le-close_resolve :
    (r r' : ℕ) (sn sn' : Text) (e : EtcdBuilder)
    → r' ≢ r
    → seat r sn e.servers ≤ seat r sn (close_resolve r' sn' e).servers
unfolding close_resolve
seat-le-close_resolve r r' sn sn' e ne = elim (Option-cases (lookup sn' e.servers)) [
  | inl k ↦ rw (k, close_resolve) (omega arith)
  | inr (srv, k) ↦
      rw (k, close_resolve)
        (elim (Bool-cases (0 == length srv.resolver)) [
          | inl z ↦ rw z (omega arith)
          | inr z ↦ rw z (
              seat-le-insert r sn sn' (record srv { resolver = without r' srv.resolver }) e.servers
                (unfold seat in rw (k, seat) (omega (arith, count-without r r' srv.resolver ne))))
        ])
]

pub seat-le-step :
    (r : ℕ) (sn : Text) (e : EtcdBuilder) (c : Call)
    → Foreign r c
    → seat r sn e.servers ≤ seat r sn (step e c).servers
unfolding step
seat-le-step r sn e (discovers sn') f = elim (Bool-cases (is_empty sn')) [
  | inl z ↦ rw (discovery-empty sn' e z, step) (omega arith)
  | inr z ↦ rw (discovery-named sn' e z, step) (seat-le-subscribe r sn sn' e)
]
seat-le-step r sn e (stores sn' ins) f = seat-le-store r sn sn' ins e
seat-le-step r sn e (receives r') f = rw (receive-servers r' e) (omega arith)
seat-le-step r sn e (closes r' sn') f = seat-le-close_resolve r r' sn sn' e f

pub seat-known :
    (r : ℕ) (sn : Text) (m : Dict ServerInfo)
    → seat r sn m ≢ 0
    → (srv : ServerInfo) × (lookup sn m ≡ some srv) × (count r srv.resolver ≢ 0)
unfolding seat
seat-known r sn m h = elim (Option-cases (lookup sn m)) [
  | inl k ↦ absurd (h (rw (k, seat) refl))
  | inr (srv, k) ↦ (srv, k, λ z. h (rw (k, seat) z))
]
