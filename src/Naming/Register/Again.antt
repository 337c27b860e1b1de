-- ===== src/Naming/Register/Again.antt =====
-- The registry of naming/etcd.go over the calls of a process: what Register, a renewal, the cancel
-- function's unregister and Close leave of a name that is taken.
use motor.Base.{
  Text, Bool, true, false, ◌≡◌, inl, inr, refl, sym, ap, ◌∙◌, some, List, [], ◌∷◌, Bool-cases,
  lookup, lookup-insert, text_eq,
}
use motor.Naming.Types.{Instance, EtcdBuilder, duplicate_register, Result, ok, err}
use motor.Naming.Register.{EtcdClient, register, register_lease, unregister, lacks_argument}
use motor.Naming.Register.Lease.{
  EtcdLaws, register_ok, register_err, register_taken, register_claims,
}

-- What may happen after a registration: a Register of any instance, a renewal, the unregister of a
-- registration that is cancelled, Close, and what others make of the cluster.
pub data Call (W : Type 0) : Type 0 where
  registers : Instance → Call W
  renews : Bool → Instance → Call W
  unregisters : Instance → Call W
  closes : Call W
  elsewhere : W → Call W

module _ (client : EtcdClient) (marshal : Instance → Text) where
  open client use {World}

  abbrev pub Process : Type 0
  Process = EtcdBuilder × World

  unfoldable pub step : Process → Call World → Process
  step (e, w) (registers i) = let (r, e', w') = register client marshal i e w in (e', w')
  step (e, w) (renews cancelled i) = (e, (register_lease client marshal cancelled e i w).1)
  step (e, w) (unregisters i) = let (r, e', w') = unregister client marshal e i w in (e', w')
  step (e, w) closes = (record e { closed = true }, w)
  step (e, w) (elsewhere w') = (e, w')

  unfoldable pub run : Process → List (Call World) → Process
  unfolding step
  run s [] = s
  run s (c ∷ cs) = run (step s c) cs

module _ (client : EtcdClient) (marshal : Instance → Text) (laws : EtcdLaws client) where
  open client use {World}

  registered-IsTaken :
      (i : Instance) (e e' : EtcdBuilder) (w w' : World) (r : Result (Unit {0})) (name : Text)
      → register client marshal i e w ≡ (r, e', w')
      → lookup name e.registry ≡ some tt
      → lookup name e'.registry ≡ some tt
  registered-IsTaken i e e' w w' (err x) name h taken =
      register_err client marshal laws i e e' w w' x name h ∙ taken
  registered-IsTaken i e e' w w' (ok u) name h taken =
      ap (λ (x : EtcdBuilder). lookup name x.registry)
        (sym (register_claims client marshal laws i e e' w w' h))
      ∙ lookup-insert i.name name tt e.registry
      ∙ elim (Bool-cases (text_eq i.name name)) [ inl p ↦ rw p refl | inr p ↦ rw (p, taken) refl ]

  step-IsTaken :
      (s : Process client marshal) (c : Call World) (name : Text)
      → lookup name s.0.registry ≡ some tt
      → lookup name (step client marshal s c).0.registry ≡ some tt
  unfolding step unregister
  step-IsTaken (e, w) (registers i) name h =
      let (r, e', w') = register client marshal i e w in
      registered-IsTaken i e e' w w' r name refl h
  step-IsTaken (e, w) (renews cancelled i) name h = h
  step-IsTaken (e, w) (unregisters i) name h = h
  step-IsTaken (e, w) closes name h = h
  step-IsTaken (e, w) (elsewhere w') name h = h

  run-IsTaken :
      (s : Process client marshal) (cs : List (Call World)) (name : Text)
      → lookup name s.0.registry ≡ some tt
      → lookup name (run client marshal s cs).0.registry ≡ some tt
  unfolding run
  run-IsTaken s [] name h = h
  run-IsTaken s (c ∷ cs) name h =
      run-IsTaken (step client marshal s c) cs name (step-IsTaken s c name h)

  -- After a Register that succeeded, and after any calls of Register, renewals, unregisters of
  -- cancelled registrations, also of this one, Close, and changes that others make to the cluster,
  -- a Register of the same name on that builder with all arguments is refused as a duplicate and
  -- changes nothing.
  pub register_again :
      (i j : Instance) (e e' : EtcdBuilder) (w w' : World) (cs : List (Call World))
      → register client marshal i e w ≡ (ok tt, e', w')
      → j.name ≡ i.name
      → lacks_argument j ≡ false
      → let (b, v) = run client marshal (e', w') cs in
        register client marshal j b v ≡ (err duplicate_register, b, v)
  register_again i j e e' w w' cs h same z =
      let (b, v) = run client marshal (e', w') cs in
      register_taken client marshal laws j b v tt z (
        ap (λ n. lookup n b.registry) same
        ∙ run-IsTaken (e', w') cs i.name (register_ok client marshal laws i e e' w w' h).2)
