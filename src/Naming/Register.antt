-- ===== src/Naming/Register.antt =====
-- naming/etcd.go: registration. The etcd client and json.Marshal are parameters; the goroutine of
-- a registration is a function of what its `select` meets.
pub mod Lease
pub mod Cancel
pub mod Again
use motor.Base.{
  ℕ, ◌+◌, ◌-◌, ◌/◌, Text, Dict, Bool, true, false, ◌||◌, Option, none, some, List, [], ◌∷◌,
  is_empty, lookup, insert, remove, if◌then◌else◌, ◌==◌,
}
use motor.Base.Outcome.{Outcome, returned, panicked}
use motor.Naming.Types.{
  Instance, AttrData, nil, string, other, EtcdBuilder, Error, empty_argument, duplicate_register,
  grant_failed, put_failed, delete_failed, Result, ok, err,
}
use motor.Naming.Key.{instance_key}

-- clientv3: the calls that the program makes, over the state of the cluster. An answer `none` or
-- `false` is an error.
pub record EtcdClient : Type 1 where
  pub World : Type 0
  -- a lease of so many seconds
  pub grant : ℕ → World → Option ℕ × World
  -- is the call's context cancelled, the key, the value and the lease
  pub put : Bool → Text → Text → ℕ → World → Bool × World
  pub delete : Text → World → Bool × World

-- What a registration's `select` meets: the ticker, with the answer to `is ctx cancelled yet`, or
-- the context's end.
pub data Wake : Type 0 where
  tick : Bool → Wake
  ctx_done : Wake

no_data : AttrData → Bool
no_data nil = true
no_data (string s) = false
no_data (other n) = false

unfoldable pub lacks_argument : Instance → Bool
unfolding no_data
lacks_argument i = is_empty i.name || (is_empty i.idc || (is_empty i.pub_env || no_data i.attr))

module _ (client : EtcdClient) (marshal : Instance → Text) where
  open client use {World, grant, put, delete}

  put_lease : Bool → EtcdBuilder → Instance → Option ℕ → World → Result (Unit {0}) × World
  put_lease cancelled e i none w = (err grant_failed, w)
  put_lease cancelled e i (some lease) w =
      let (done, w') = put cancelled (instance_key e.conf i) (marshal i) lease w in
      (if done then ok tt else err put_failed, w')

  -- Registers the instance, or renews it.
  unfoldable pub register_lease : Bool → EtcdBuilder → Instance → World → Result (Unit {0}) × World
  unfolding put_lease
  register_lease cancelled e i w =
      let (lease, w') = grant e.conf.lease_ttl w in put_lease cancelled e i lease w'

  -- The registry is left as it is.
  unfoldable pub unregister :
      EtcdBuilder → Instance → World → Result (Unit {0}) × EtcdBuilder × World
  unregister e i w =
      let (done, w') = delete (instance_key e.conf i) w in
      (if done then ok tt else err delete_failed, e, w')

  after_lease :
      Instance → EtcdBuilder → Result (Unit {0}) × World → Result (Unit {0}) × EtcdBuilder × World
  after_lease i e (ok u, w) = (ok tt, e, w)
  after_lease i e (err x, w) = (err x, record e { registry = remove i.name e.registry }, w)

  -- `ok` starts the goroutine `renew`, and gives the cancel function.
  unfoldable pub register : Instance → EtcdBuilder → World → Result (Unit {0}) × EtcdBuilder × World
  unfolding after_lease lacks_argument
  register i e w =
      if lacks_argument i then (err empty_argument, e, w) else elim (lookup i.name e.registry) [
        | some u ↦ (err duplicate_register, e, w)
        | none ↦
            let e' = record e { registry = insert i.name tt e.registry } in
            after_lease i e' (register_lease e.closed e' i w)
      ]

  -- The loop; its flag says that it has ended, which puts a token into the channel `ch`.
  renew_loop : EtcdBuilder → Instance → List Wake → World → Bool × World
  renew_loop e i [] w = (false, w)
  renew_loop e i (tick cancelled ∷ wakes) w =
      renew_loop e i wakes (register_lease cancelled e i w).1
  renew_loop e i (ctx_done ∷ wakes) w = (true, (unregister e i w).2)

  -- time.NewTicker panics on an interval of zero.
  unfoldable pub renew : EtcdBuilder → Instance → List Wake → World → Outcome (Bool × World)
  unfolding renew_loop
  renew e i wakes w =
      if e.conf.lease_ttl / 3 == 0 then panicked else returned (renew_loop e i wakes w)
