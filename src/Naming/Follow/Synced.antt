-- ===== src/Naming/Follow/Synced.antt =====
-- A loop that follows a service ends up with the instances that were stored last.
use motor.Base.{
  ℕ, ◌≤◌, Text, Bool, true, false, ◌≡◌, ◌≢◌, refl, ap, sym, subst, ◌∙◌, ◌⊎◌, inl, inr, some, List,
  [], ◌∷◌, ◌++◌, arith, All, get_elem?, Bool-cases,
}
use motor.Naming.Types.{Instance, Resolve, EtcdBuilder}
use motor.Naming.Builder.{Call, step, fetch}
use motor.Naming.Builder.Seat.{Foreign, seat, seat-le-step}
use motor.Naming.Builder.Token.{Holds-step, step-Notices, receive-Receives}
use motor.Naming.Follow.{
  System, Turn, wakes, fetches, calls, received, wake, fetched, fetch_turn, turn, follow,
}
use motor.Naming.Follow.Turns.{
  turned, unturned, fetch_turn-waits, fetch_turn-builder, follow-append,
}

-- The loop's own turns, and calls by goroutines that have other resolvers.
abbrev pub IsTurn : ℕ → Turn → Type 0
IsTurn r wakes = Unit
IsTurn r fetches = Unit
IsTurn r (calls c) = Foreign r c

module _ {P : Type 0} (load : List Instance → P → P) (r : ℕ) (sn : Text) (start : System P) where
  -- Fetch has nothing; or it has what it had at the start, and so has the pool; or the pool is a
  -- load of what Fetch has.
  abbrev pub IsSettled : List Instance × Bool → P → Type 0
  IsSettled now pool =
      (now.1 ≡ false)
      ⊎ (((now ≡ fetch sn start.builder) × (pool ≡ start.pool))
          ⊎ ((ins : List Instance) × (old : P) × (now ≡ (ins, true)) × (pool ≡ load ins old)))

  -- The resolver is on the service and holds at most one token; where it holds none and the loop
  -- waits, the pool is settled.
  abbrev pub IsSynced : System P → Type 0
  IsSynced s =
      (seat r sn s.builder.servers ≢ 0)
      × ((v : Resolve) × (get_elem? s.builder.resolves r ≡ some v)
          × (v.event ≤ 1)
          × ((v.event ≡ 1) ⊎ ((s.woken ≡ true) ⊎ IsSettled (fetch sn s.builder) s.pool)))

  call-IsSynced :
      (s : System P) (c : Call)
      → Foreign r c
      → IsSynced s
      → IsSynced (record s { builder = step s.builder c })
  call-IsSynced s c f (seated, (v, here, le, why)) =
      let e = s.builder in
      let (v', here', le', more) = Holds-step r e c v f here le in
      let why' : (v'.event ≡ 1) ⊎ ((s.woken ≡ true) ⊎ IsSettled (fetch sn (step e c)) s.pool) =
        elim (step-Notices r sn e c v seated here le) [
          | inr (w, there, one) ↦ inl (ground (arith, here', there, one))
          | inl same ↦ elim why [
            | inl one ↦ inl (omega (arith, one, more, le'))
            | inr (inl woken) ↦ inr (inl woken)
            | inr (inr settled) ↦ inr (inr (subst (λ q. IsSettled q s.pool) (sym same) settled))
          ]
        ] in
      ((λ z. seated (omega (arith, seat-le-step r sn e c f, z))), (v', here', le', why'))

  fetched-IsSynced :
      (s : System P) (now : List Instance × Bool)
      → fetch sn s.builder ≡ now
      → IsSynced s
      → IsSynced (fetched load r sn s now)
  unfolding fetched
  fetched-IsSynced s (ins, false) e (seated, (v, here, le, why)) =
      (seated, (v, here, le, inr (inr (inl (ap (λ (q : List Instance × Bool). q.1) e)))))
  fetched-IsSynced s (ins, true) e (seated, (v, here, le, why)) =
      (seated, (v, here, le, inr (inr (inr (inr (ins, s.pool, e, refl))))))

  fetch_turn-IsSynced : (s : System P) → IsSynced s → IsSynced (fetch_turn load r sn s)
  unfolding fetch_turn
  fetch_turn-IsSynced s k = elim (Bool-cases s.woken) [
    | inl w ↦
        subst IsSynced (sym (turned load r sn s w)) (fetched-IsSynced s (fetch sn s.builder) refl k)
    | inr w ↦ subst IsSynced (sym (unturned load r sn s w)) k
  ]

  -- The loop has no token to take.
  abbrev HasNone : EtcdBuilder → Type 0
  HasNone e = (v : Resolve) × (get_elem? e.resolves r ≡ some v) × (v.event ≡ 0)

  -- The loop waits on, or is woken and has taken the token.
  abbrev Wakes : System P → System P → Type 0
  Wakes s s' =
      (s' ≡ s) × HasNone s.builder
      ⊎ ((e' : EtcdBuilder) × (s' ≡ record s { builder = e'; woken = true })
          × (e'.servers ≡ s.builder.servers)
          × HasNone e')

  wake-Wakes : (s : System P) → s.woken ≡ false → IsSynced s → Wakes s (wake load r sn s)
  unfolding wake received
  wake-Wakes s w (seated, (v, here, le, why)) = elim (receive-Receives r s.builder v here le) [
    | inl (z, q) ↦ inl (ground (arith, w, q), (v, here, z))
    | inr (e', q, same, none') ↦ inr (e', ground (arith, w, q), same, none')
  ]

  Wakes-IsSynced : (s s' : System P) → Wakes s s' → IsSynced s → IsSynced s'
  Wakes-IsSynced s s' (inl (q, none')) k = subst IsSynced (sym q) k
  Wakes-IsSynced s s' (inr (e', q, same, (v, here, z))) (seated, rest) =
      subst IsSynced (sym q)
        ((λ n. seated (ap (seat r sn) (sym same) ∙ n)), (v, here, omega (arith, z), inr (inl refl)))

  wake-IsSynced : (s : System P) → IsSynced s → IsSynced (wake load r sn s)
  unfolding wake
  wake-IsSynced s k = elim (Bool-cases s.woken) [
    | inl w ↦ let q : wake load r sn s ≡ s = ground (arith, w) in subst IsSynced (sym q) k
    | inr w ↦ Wakes-IsSynced s (wake load r sn s) (wake-Wakes s w k) k
  ]

  turn-IsSynced :
      (s : System P) (t : Turn) → IsTurn r t → IsSynced s → IsSynced (turn load r sn s t)
  unfolding turn
  turn-IsSynced s wakes i k = wake-IsSynced s k
  turn-IsSynced s fetches i k = fetch_turn-IsSynced s k
  turn-IsSynced s (calls c) i k = call-IsSynced s c i k

  follow-IsSynced :
      (s : System P) (ts : List Turn)
      → All (IsTurn r) ts
      → IsSynced s
      → IsSynced (follow load r sn s ts)
  unfolding follow
  follow-IsSynced s [] i k = k
  follow-IsSynced s (t ∷ ts) i k =
      follow-IsSynced (turn load r sn s t) ts i.1 (turn-IsSynced s t i.0 k)

  -- The loop waits and its channel is empty.
  abbrev pub IsIdle : System P → Type 0
  IsIdle s = (s.woken ≡ false) × HasNone s.builder

  IsIdle-IsSettled : (s : System P) → IsIdle s → IsSynced s → IsSettled (fetch sn s.builder) s.pool
  IsIdle-IsSettled s (w, (u, there, none')) (seated, (v, here, le, why)) = elim why [
    | inl one ↦ absurd (ground (arith, here, there, one, none'))
    | inr (inl woken) ↦ cc (w, woken)
    | inr (inr settled) ↦ settled
  ]

  start-IsSynced :
      (v : Resolve)
      → seat r sn start.builder.servers ≢ 0
      → get_elem? start.builder.resolves r ≡ some v
      → v.event ≤ 1
      → IsSynced start
  start-IsSynced v seated here le = (seated, (v, here, le, inr (inr (inr (inl (refl, refl))))))

  -- Whatever calls are made around a loop that follows a service, by goroutines that have other
  -- resolvers: where the loop waits with its channel empty, the pool is a load of what Fetch
  -- gives, or Fetch gives nothing, or both are as they were at the start.
  follow-IsSettled :
      (v : Resolve) (ts : List Turn)
      → seat r sn start.builder.servers ≢ 0
      → get_elem? start.builder.resolves r ≡ some v
      → v.event ≤ 1
      → All (IsTurn r) ts
      → IsIdle (follow load r sn start ts)
      → IsSettled (fetch sn (follow load r sn start ts).builder) (follow load r sn start ts).pool
  follow-IsSettled v ts seated here le i idle =
      IsIdle-IsSettled (follow load r sn start ts) idle
        (follow-IsSynced start ts i (start-IsSynced v seated here le))

  HasNone-wake : (s : System P) → s.woken ≡ false → IsSynced s → HasNone (wake load r sn s).builder
  HasNone-wake s w k = elim (wake-Wakes s w k) [
    | inl (q, none') ↦ subst (λ x. HasNone x.builder) (sym q) none'
    | inr (e', q, same, none') ↦ subst (λ x. HasNone x.builder) (sym q) none'
  ]

  -- Three turns of the loop, with no call between them, empty its channel.
  rounds-IsIdle :
      (s : System P) → IsSynced s → IsIdle (follow load r sn s (fetches ∷ wakes ∷ fetches ∷ []))
  unfolding follow turn
  rounds-IsIdle s k =
      let s1 = fetch_turn load r sn s in
      let s2 = wake load r sn s1 in
      (
        fetch_turn-waits load r sn s2,
        subst HasNone (sym (fetch_turn-builder load r sn s2))
            (HasNone-wake s1 (fetch_turn-waits load r sn s) (fetch_turn-IsSynced s k)),
      )

  -- Whatever calls goroutines with other resolvers made around the loop, three turns of its own
  -- with no call between them bring it to wait with its channel empty; and then the pool is a load
  -- of what Fetch gives, or Fetch gives nothing, or both are as they were at the start.
  pub follow-catches_up :
      (v : Resolve) (ts : List Turn)
      → seat r sn start.builder.servers ≢ 0
      → get_elem? start.builder.resolves r ≡ some v
      → v.event ≤ 1
      → All (IsTurn r) ts
      → let s = follow load r sn start (ts ++ (fetches ∷ wakes ∷ fetches ∷ [])) in
        IsIdle s × IsSettled (fetch sn s.builder) s.pool
  follow-catches_up v ts seated here le i =
      let rounds = fetches ∷ wakes ∷ fetches ∷ [] in
      let k = follow-IsSynced start ts i (start-IsSynced v seated here le) in
      let s = follow load r sn (follow load r sn start ts) rounds in
      let idle = rounds-IsIdle (follow load r sn start ts) k in
      subst (λ x. IsIdle x × IsSettled (fetch sn x.builder) x.pool)
        (sym (follow-append load r sn start ts rounds))
        (idle, IsIdle-IsSettled s idle (follow-IsSynced _ rounds (tt, (tt, (tt, tt))) k))
