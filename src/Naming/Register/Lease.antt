-- ===== src/Naming/Register/Lease.antt =====
-- What a registration leaves in etcd and in the builder.
use motor.Base.{
  ℕ, ◌≤◌, ◌<◌, ◌≡◌, inl, inr, refl, ap, subst, sym, ◌∙◌, Text, Bool, true, false, ◌++◌, Option,
  none, some, List, [], ◌∷◌, arith, All, Bool-cases, Option-cases, lookup, lookup-insert,
  lookup-remove, text_eq, text_eq_iff, text_eq_refl, insert, remove, if◌then◌else◌,
}
use motor.Base.Outcome.{returned, panicked}
use motor.Naming.Types.{
  Instance, EtcdBuilder, Error, empty_argument, duplicate_register, Result, ok, err,
}
use motor.Naming.Key.{instance_key}
use motor.Naming.Register.{
  EtcdClient, Wake, tick, ctx_done, register, register_lease, unregister, renew, renew_loop,
  after_lease, put_lease, lacks_argument,
}

-- What the program relies on of etcd: a view of the keys; a put that succeeds writes its key alone,
-- a delete that succeeds takes its key alone, and a grant changes no key.
pub record EtcdLaws (client : EtcdClient) : Type 0 where
  pub stored : client.World → Text → Option Text
  pub stored-grant :
      (ttl : ℕ) (w : client.World) (k : Text) → stored (client.grant ttl w).1 k ≡ stored w k
  pub stored-put :
      (c : Bool) (k v : Text) (lease : ℕ) (w : client.World) (j : Text)
      → (client.put c k v lease w).0 ≡ true
      → stored (client.put c k v lease w).1 j ≡ (if text_eq k j then some v else stored w j)
  pub stored-delete :
      (k : Text) (w : client.World) (j : Text)
      → (client.delete k w).0 ≡ true
      → stored (client.delete k w).1 j ≡ (if text_eq k j then none else stored w j)

abbrev pub claim : Instance → EtcdBuilder → EtcdBuilder
claim i e = record e { registry = insert i.name tt e.registry }

module _ (client : EtcdClient) (marshal : Instance → Text) (laws : EtcdLaws client) where
  open client use {World, grant, put, delete}
  open laws use {stored, stored-grant, stored-put, stored-delete}

  put_lease-stored :
      (c : Bool) (e : EtcdBuilder) (i : Instance) (lease : Option ℕ) (w : World)
      → (put_lease client marshal c e i lease w).0 ≡ ok tt
      → stored (put_lease client marshal c e i lease w).1 (instance_key e.conf i) ≡ some (marshal i)
  unfolding put_lease
  put_lease-stored c e i none w h = cc
  put_lease-stored c e i (some lease) w h =
      elim (Bool-cases (put c (instance_key e.conf i) (marshal i) lease w).0) [
        | inl done ↦
            stored-put c (instance_key e.conf i) (marshal i) lease w (instance_key e.conf i) done
            ∙ rw (text_eq_refl (instance_key e.conf i))
        | inr failed ↦ absurd (ground arith)
      ]

  -- A registration or a renewal that succeeds leaves the instance under its key.
  register_lease-stored :
      (c : Bool) (e : EtcdBuilder) (i : Instance) (w : World)
      → (register_lease client marshal c e i w).0 ≡ ok tt
      → stored (register_lease client marshal c e i w).1 (instance_key e.conf i) ≡ some (marshal i)
  unfolding register_lease
  register_lease-stored c e i w h =
      put_lease-stored c e i (grant e.conf.lease_ttl w).0 (grant e.conf.lease_ttl w).1 h

  -- What a registration comes to, once its name is free.
  after_lease_ok :
      (i : Instance) (e e' : EtcdBuilder) (r : Result (Unit {0})) (w w' : World)
      → after_lease client marshal i e (r, w) ≡ (ok tt, e', w')
      → (r ≡ ok tt) × (e ≡ e') × (w ≡ w')
  unfolding after_lease
  after_lease_ok i e e' (ok u) w w' h = (refl, ap (λ x. x.1) h, ap (λ x. x.2) h)
  after_lease_ok i e e' (err x) w w' h = cc (ap (λ x. x.0) h)

  register_lacking :
      (i : Instance) (e : EtcdBuilder) (w : World)
      → lacks_argument i ≡ true
      → register client marshal i e w ≡ (err empty_argument, e, w)
  unfolding register
  register_lacking i e w z = rw (z, register)

  pub register_taken :
      (i : Instance) (e : EtcdBuilder) (w : World) (u : Unit {0})
      → lacks_argument i ≡ false
      → lookup i.name e.registry ≡ some u
      → register client marshal i e w ≡ (err duplicate_register, e, w)
  unfolding register
  register_taken i e w u z k = rw (z, k, register)

  register_free :
      (i : Instance) (e : EtcdBuilder) (w : World)
      → lacks_argument i ≡ false
      → lookup i.name e.registry ≡ none
      → register client marshal i e w
        ≡ after_lease client marshal i
            (claim i e)
            (register_lease client marshal e.closed (claim i e) i w)
  unfolding register
  register_free i e w z k = rw (z, k, register)

  -- Register succeeds only for an instance that has all its arguments and whose name is free; then
  -- the name is taken, and etcd holds the encoded instance under its key.
  pub register_ok :
      (i : Instance) (e e' : EtcdBuilder) (w w' : World)
      → register client marshal i e w ≡ (ok tt, e', w')
      → (lacks_argument i ≡ false)
        × (lookup i.name e.registry ≡ none)
        × (lookup i.name e'.registry ≡ some tt)
        × (stored w' (instance_key e.conf i) ≡ some (marshal i))
  register_ok i e e' w w' h = elim (Bool-cases (lacks_argument i)) [
    | inl z ↦ cc (ap (λ x. x.0) (sym (register_lacking i e w z) ∙ h))
    | inr z ↦ elim (Option-cases (lookup i.name e.registry)) [
      | inr (u, k) ↦ cc (ap (λ x. x.0) (sym (register_taken i e w u z k) ∙ h))
      | inl k ↦
          let r = register_lease client marshal e.closed (claim i e) i w in
          let (done, same, end) =
            after_lease_ok i (claim i e) e' r.0 r.1 w' (sym (register_free i e w z k) ∙ h) in
          (
            z,
            k,
            ap (λ (x : EtcdBuilder). lookup i.name x.registry) (sym same)
                ∙ lookup-insert i.name i.name tt e.registry
                ∙ rw (text_eq_refl i.name),
            subst (λ x. stored x (instance_key e.conf i) ≡ some (marshal i)) end
                (register_lease-stored e.closed (claim i e) i w done),
          )
    ]
  ]

  -- A Register that succeeds takes its name and leaves the rest of the builder.
  pub register_claims :
      (i : Instance) (e e' : EtcdBuilder) (w w' : World)
      → register client marshal i e w ≡ (ok tt, e', w')
      → claim i e ≡ e'
  register_claims i e e' w w' h =
      let (z, k, taken, held) = register_ok i e e' w w' h in
      let r = register_lease client marshal e.closed (claim i e) i w in
      (after_lease_ok i (claim i e) e' r.0 r.1 w' (sym (register_free i e w z k) ∙ h)).1

  after_lease_err :
      (i : Instance) (e e' : EtcdBuilder) (r : Result (Unit {0})) (w w' : World) (x : Error)
      → after_lease client marshal i e (r, w) ≡ (err x, e', w')
      → e'.registry ≡ remove i.name e.registry
  unfolding after_lease
  after_lease_err i e e' (ok u) w w' x h = cc (ap (λ y. y.0) h)
  after_lease_err i e e' (err y) w w' x h =
      ap (λ (z : Result (Unit {0}) × EtcdBuilder × World). z.1.registry) (sym h)

  -- A Register that fails, for any reason, leaves every name as free or as taken as it was.
  pub register_err :
      (i : Instance) (e e' : EtcdBuilder) (w w' : World) (x : Error) (name : Text)
      → register client marshal i e w ≡ (err x, e', w')
      → lookup name e'.registry ≡ lookup name e.registry
  register_err i e e' w w' x name h = elim (Bool-cases (lacks_argument i)) [
    | inl z ↦ ap (λ y. lookup name y.1.registry) (sym h ∙ register_lacking i e w z)
    | inr z ↦ elim (Option-cases (lookup i.name e.registry)) [
      | inr (u, k) ↦ ap (λ y. lookup name y.1.registry) (sym h ∙ register_taken i e w u z k)
      | inl k ↦
          let r = register_lease client marshal e.closed (claim i e) i w in
          let undone =
            after_lease_err i (claim i e) e' r.0 r.1 w' x (sym (register_free i e w z k) ∙ h) in
          rw undone (
            ground (
              arith,
              k,
              text_eq_iff i.name name,
              lookup-remove i.name name (insert i.name tt e.registry),
              lookup-insert i.name name tt e.registry,
            ))
    ]
  ]

  abbrev IsTick : Wake → Type 0
  IsTick (tick c) = Unit
  IsTick ctx_done = ⊥

  renew_loop-cancelled :
      (e : EtcdBuilder) (i : Instance) (ticks later : List Wake) (w : World)
      → All IsTick ticks
      → renew_loop client marshal e i (ticks ++ (ctx_done ∷ later)) w
        ≡ (true, (unregister client marshal e i (renew_loop client marshal e i ticks w).1).2)
  unfolding renew_loop
  renew_loop-cancelled e i [] later w h = refl
  renew_loop-cancelled e i (tick c ∷ ticks) later w h =
      renew_loop-cancelled e i ticks later (register_lease client marshal c e i w).1 h.1
  renew_loop-cancelled e i (ctx_done ∷ ticks) later w h = absurd h.0

  unregister-stored :
      (e : EtcdBuilder) (i : Instance) (w : World)
      → (unregister client marshal e i w).0 ≡ ok tt
      → stored (unregister client marshal e i w).2 (instance_key e.conf i) ≡ none
  unfolding unregister
  unregister-stored e i w h = elim (Bool-cases (delete (instance_key e.conf i) w).0) [
    | inl done ↦
        stored-delete (instance_key e.conf i) w (instance_key e.conf i) done
        ∙ rw (text_eq_refl (instance_key e.conf i))
    | inr failed ↦ absurd (ground arith)
  ]

  -- With a lease of three seconds or more, a registration that is cancelled after any number of
  -- ticks ends with an unregister and takes no later signal, and if that delete succeeds etcd does
  -- not hold its key.
  pub renew-cancelled :
      (e : EtcdBuilder) (i : Instance) (ticks later : List Wake) (w : World)
      → 3 ≤ e.conf.lease_ttl
      → All IsTick ticks
      → (w' : World) × (renew client marshal e i (ticks ++ (ctx_done ∷ later)) w
          ≡ returned (true, (unregister client marshal e i w').2))
        × ((unregister client marshal e i w').0 ≡ ok tt
            → stored (unregister client marshal e i w').2 (instance_key e.conf i) ≡ none)
  unfolding renew
  renew-cancelled e i ticks later w long h =
      let w' = (renew_loop client marshal e i ticks w).1 in
      (w', ground (arith, renew_loop-cancelled e i ticks later w h), unregister-stored e i w')

module _ (client : EtcdClient) (marshal : Instance → Text) where
  -- With a lease below three seconds the goroutine of a registration panics, whatever its select
  -- would meet.
  renew_short :
      (e : EtcdBuilder) (i : Instance) (wakes : List Wake) (w : client.World)
      → e.conf.lease_ttl < 3
      → renew client marshal e i wakes w ≡ panicked
  unfolding renew
  renew_short e i wakes w short = ground arith
