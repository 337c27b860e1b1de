-- ===== src/Naming/Register/Cancel/Tests.antt =====
-- A registration that is cancelled twice.
use motor.Naming.Register.Cancel.{
  System, start, Steps, here, later, cancels, unregisters, sends, takes, ended,
}
use motor.Naming.Register.Cancel.Once.{IsLeft, cancel-returns}
use motor.Base.{◌≤◌, ◌≡◌, refl, Text, Dict, true, [], arith}
use motor.Naming.Register.{unregister}
use motor.Naming.Tests.{instance_of, sn, etcd, marshal, registered}

abbrev StepsTo : System (Dict Text) → System (Dict Text) → Type 0
StepsTo = Steps etcd marshal registered (instance_of sn)

-- A registration that two calls cancel, before and after its goroutine's unregister.
abbrev cancelling : System (Dict Text)
cancelling = record (start {W = Dict Text} []) { cancelled = true; waiting = 1 }

abbrev cancelled_once : System (Dict Text)
cancelled_once = record {
  world = (unregister etcd marshal registered (instance_of sn) []).2;
  loop = ended;
  cancelled = true;
  tokens = 0;
  waiting = 0;
  returned = 1;
}

cancelling-Steps : StepsTo (start []) cancelling
cancelling-Steps = later here cancels

once-Steps : StepsTo (start []) cancelled_once
once-Steps =
    later (later (later cancelling-Steps (unregisters refl refl)) (sends refl (omega arith)))
      (takes (omega arith) (omega arith))

cancel-returns_example :
    (cancelled_once.returned ≡ 1)
    × (0 ≤ 1)
    × (cancelled_once.world ≡ cancelled_once.world)
    × IsLeft etcd marshal registered (instance_of sn) cancelled_once.world
cancel-returns_example =
    cancel-returns etcd marshal registered (instance_of sn) [] cancelled_once
      (record cancelled_once { waiting = 1 }) once-Steps (omega arith) (later here cancels)
