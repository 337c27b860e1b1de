-- ===== src/Naming/Register/Cancel/Once.antt =====
-- Which calls of a registration's cancel function return.
use motor.Base.{ℕ, ◌+◌, ◌<◌, ◌≤◌, Text, ◌≡◌, refl, sym, subst, arith, true}
use motor.Naming.Types.{Instance, EtcdBuilder}
use motor.Naming.Register.{EtcdClient, register_lease, unregister}
use motor.Naming.Register.Cancel.{
  Loop, renewing, unregistered, ended, System, start, Step, ticks, cancels, closes, unregisters,
  sends, takes, Steps, here, later,
}

abbrev over : Loop → ℕ
over renewing = 0
over unregistered = 0
over ended = 1

module _ (client : EtcdClient) (marshal : Instance → Text) (e : EtcdBuilder) (i : Instance) where
  -- The cluster as an unregister leaves it.
  abbrev pub IsLeft : client.World → Type 0
  IsLeft w = (w' : client.World) × (w ≡ (unregister client marshal e i w').2)

  abbrev AfterLoop : Loop → client.World → Type 0
  AfterLoop renewing w = Unit
  AfterLoop unregistered w = IsLeft w
  AfterLoop ended w = IsLeft w

  -- A token is sent once, and each call that returns has taken one; a call cancels first.
  abbrev IsOrderly : System client.World → Type 0
  IsOrderly s =
      (s.tokens + s.returned ≡ over s.loop)
      × (0 < s.waiting → s.cancelled ≡ true)
      × AfterLoop s.loop s.world

  Step-IsOrderly :
      (s t : System client.World) → Step client marshal e i s t → IsOrderly s → IsOrderly t
  Step-IsOrderly s t (ticks x) h = (
    h.0,
    h.1,
    subst (λ l. AfterLoop l (register_lease client marshal s.cancelled e i s.world).1) (sym x) tt,
  )
  Step-IsOrderly s t cancels h = (h.0, λ p. refl, h.2)
  Step-IsOrderly s t closes h = (h.0, λ p. refl, h.2)
  Step-IsOrderly s t (unregisters x c) h = (ground arith, h.1, (s.world, refl))
  Step-IsOrderly s t (sends x p) h = (ground arith, h.1, subst (λ l. AfterLoop l s.world) x h.2)
  Step-IsOrderly s t (takes p q) h = (ground arith, (λ r. h.1 p), h.2)

  Steps-IsOrderly :
      (w : client.World) (s : System client.World)
      → Steps client marshal e i (start w) s
      → IsOrderly s
  Steps-IsOrderly w s here = (omega arith, (λ p. absurd (omega arith)), tt)
  Steps-IsOrderly w s (later {t} r st) = Step-IsOrderly t s st (Steps-IsOrderly w t r)

  -- What stays as it is once the goroutine has ended and its token is taken.
  abbrev IsOver : System client.World → System client.World → Type 0
  IsOver s t =
      (t.loop ≡ ended)
      × (t.tokens ≡ 0)
      × (t.returned ≡ s.returned)
      × (s.waiting ≤ t.waiting)
      × (t.world ≡ s.world)

  Step-IsOver :
      (s t u : System client.World) → Step client marshal e i t u → IsOver s t → IsOver s u
  Step-IsOver s t u (ticks x) h = absurd (ground arith)
  Step-IsOver s t u cancels h = ground arith
  Step-IsOver s t u closes h = h
  Step-IsOver s t u (unregisters x c) h = absurd (ground arith)
  Step-IsOver s t u (sends x p) h = absurd (ground arith)
  Step-IsOver s t u (takes p q) h = absurd (ground arith)

  Steps-IsOver :
      (s t : System client.World)
      → s.loop ≡ ended
      → s.tokens ≡ 0
      → Steps client marshal e i s t
      → IsOver s t
  Steps-IsOver s t l k here = (l, k, refl, omega arith, refl)
  Steps-IsOver s t l k (later {t = u} r st) = Step-IsOver s u t st (Steps-IsOver s u l k r)

  over-ended : (l : Loop) → 0 < over l → l ≡ ended
  over-ended renewing p = absurd (omega arith)
  over-ended unregistered p = absurd (omega arith)
  over-ended ended p = refl

  -- In any order of the steps of a registration's goroutine, of the calls of its cancel function
  -- and of Close of the builder: once a call of the cancel function has returned, the goroutine
  -- has unregistered and changes the cluster no more, and no other call ever returns.
  pub cancel-returns :
      (w : client.World) (s t : System client.World)
      → Steps client marshal e i (start w) s
      → 0 < s.returned
      → Steps client marshal e i s t
      → (t.returned ≡ 1) × (s.waiting ≤ t.waiting) × (t.world ≡ s.world) × IsLeft s.world
  cancel-returns w s t r p more =
      let orderly = Steps-IsOrderly w s r in
      let l = over-ended s.loop (ground (arith, orderly)) in
      let k : s.tokens ≡ 0 = ground (arith, orderly) in
      let over = Steps-IsOver s t l k more in
      (ground arith, over.3, over.4, subst (λ x. AfterLoop x s.world) l orderly.2)

  -- A later state in which one more call has returned.
  abbrev Returns : System client.World → Type 0
  Returns s =
      (t : System client.World) × Steps client marshal e i s t × (t.returned ≡ s.returned + 1)
