-- ===== src/Naming/Register/Cancel.antt =====
-- The cancel function that Register of naming/etcd.go returns, with the goroutine of the
-- registration, as steps that may follow each other in any order. The lease is of three seconds or
-- more, so that the goroutine has a ticker.
pub mod Once
mod Tests
use motor.Base.{Text, ℕ, ◌+◌, ◌-◌, ◌<◌, ◌≡◌, Bool, true, false}
use motor.Naming.Types.{Instance, EtcdBuilder}
use motor.Naming.Register.{EtcdClient, register_lease, unregister}

-- Where the goroutine stands: in its loop, before its send to `ch`, and at its end.
pub data Loop : Type 0 where
  renewing unregistered ended : Loop

-- The goroutine, whether ctx is cancelled, the tokens in `ch`, and how many calls of the cancel
-- function are at their receive and at an end.
pub record System (W : Type 0) : Type 0 where
  pub world : W
  pub loop : Loop
  pub cancelled : Bool
  pub tokens : ℕ
  pub waiting : ℕ
  pub returned : ℕ

-- A registration that has just succeeded.
abbrev pub start : {W : Type 0} → W → System W
start w = record {
  world = w;
  loop = renewing;
  cancelled = false;
  tokens = 0;
  waiting = 0;
  returned = 0;
}

module _ (client : EtcdClient) (marshal : Instance → Text) (e : EtcdBuilder) (i : Instance) where
  pub data Step (s : System client.World) : System client.World → Type 0 where
    -- the select may take the ticker when ctx is cancelled, too
    ticks :
        s.loop ≡ renewing
        → Step s (record s { world = (register_lease client marshal s.cancelled e i s.world).1 })
    -- a call of the cancel function; Close of the builder, which cancels the parent of ctx
    cancels : Step s (record s { cancelled = true; waiting = s.waiting + 1 })
    closes : Step s (record s { cancelled = true })
    unregisters :
        s.loop ≡ renewing
        → s.cancelled ≡ true
        → Step s
            (record s { world = (unregister client marshal e i s.world).2; loop = unregistered })
    -- `ch` holds one token
    sends :
        s.loop ≡ unregistered
        → s.tokens < 1
        → Step s (record s { loop = ended; tokens = s.tokens + 1 })
    takes :
        0 < s.waiting
        → 0 < s.tokens
        → Step s
            (record s { tokens = s.tokens - 1; waiting = s.waiting - 1; returned = s.returned + 1 })

  pub data Steps (s : System client.World) : System client.World → Type 0 where
    here : Steps s s
    later : {t u : System client.World} → Steps s t → Step t u → Steps s u
