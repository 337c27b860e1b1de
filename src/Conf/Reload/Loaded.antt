-- ===== src/Conf/Reload/Loaded.antt =====
-- The pool of a loop that follows a file, against what Get finds under the file's name.
use motor.Base.{
  ℕ, zero, suc, ◌≤◌, Text, false, ◌≡◌, inl, inr, refl, sym, ap, subst, ◌∙◌, Option, some, List, [],
  ◌∷◌, ◌++◌, arith, All, length, get_elem?, All-get_elem?, Bool-cases,
}
use mathlib.Core.Option.{some-injective}
use motor.Base.Outcome.{returned}
use motor.Conf.Watch.{Event, Conf, def_ch_size, get, watch_event}
use motor.Conf.Watch.Subscribe.{watch_event-IsValid, IsValid}
use motor.Conf.Watch.Behind.{watch_event-Behind}
use motor.Conf.Reload.{System, Turn, takes, reads, take, read, turn, follow}
use motor.Conf.Reload.Found.{IsStored, IsPresent}
use motor.Conf.Reload.Synced.{
  IsCurrent, IsSynced, get-IsCurrent, read-IsSynced, follow-IsSynced, take-first, take-empty,
  rest-held, IsTurn,
}

module _ {A P : Type 0} (file : Text) (decode : Text → Option A) (load : A → P → P) where
  -- The loop waits, and its channel is empty.
  abbrev pub IsIdle : ℕ → System P → Type 0
  IsIdle ch s = (s.woken ≡ false) × (get_elem? s.conf.chans ch ≡ some [])

  -- Rounds of the loop.
  abbrev pub rounds : ℕ → List Turn
  rounds zero = []
  rounds (suc n) = takes ∷ reads ∷ rounds n

  read-waits :
      (s : System P)
      → ((read file decode load s).woken ≡ false) × ((read file decode load s).conf ≡ s.conf)
  unfolding read
  read-waits s = elim (Bool-cases s.woken) [
    | inl e ↦ rw (e, read) (refl, refl)
    | inr e ↦ rw (e, read) (refl, refl)
  ]

  round-held :
      (ch : ℕ) (s : System P) (x : Event) (rest : List Event)
      → s.woken ≡ false
      → get_elem? s.conf.chans ch ≡ some (x ∷ rest)
      → get_elem? (read file decode load (take file decode load ch s)).conf.chans ch ≡ some rest
  round-held ch s x rest w held =
      ap (λ (c : Conf). get_elem? c.chans ch)
        ((read-waits (take file decode load ch s)).1
          ∙ ap (λ (y : System P). y.conf) (take-first file decode load ch s x rest w held))
      ∙ rest-held file decode load ch s.conf x rest held

  rounds-IsIdle :
      (ch : ℕ) (n : ℕ) (s : System P) (buf : List Event)
      → s.woken ≡ false
      → get_elem? s.conf.chans ch ≡ some buf
      → length buf ≤ n
      → IsIdle ch (follow file decode load ch s (rounds n))
  unfolding follow turn
  rounds-IsIdle ch zero s [] w held le = (w, held)
  rounds-IsIdle ch zero s (x ∷ rest) w held le = absurd (omega arith)
  rounds-IsIdle ch (suc n) s [] w held le =
      let s' = read file decode load (take file decode load ch s) in
      let same : s'.conf ≡ s.conf =
        (read-waits (take file decode load ch s)).1
        ∙ ap (λ (y : System P). y.conf) (take-empty file decode load ch s held) in
      rounds-IsIdle ch n s' [] (read-waits (take file decode load ch s)).0
        (ap (λ (c : Conf). get_elem? c.chans ch) same ∙ held) (omega arith)
  rounds-IsIdle ch (suc n) s (x ∷ rest) w held le =
      rounds-IsIdle ch n (read file decode load (take file decode load ch s)) rest
        (read-waits (take file decode load ch s)).0 (round-held ch s x rest w held)
        (omega (arith, le))

  IsIdle-IsCurrent :
      (ch : ℕ) (s : System P)
      → IsIdle ch s
      → IsSynced file decode load ch s
      → IsCurrent file decode load s.conf s.pool
  IsIdle-IsCurrent ch s (waits, empty) k =
      let none_held : k.buf ≡ [] = some-injective k.buf [] (sym k.held ∙ empty) in
      elim k.settled [
        | inl woken ↦ cc
        | inr (inl holds) ↦ absurd (omega (arith, holds, ap length none_held))
        | inr (inr current) ↦ current
      ]

  follow-append :
      (ch : ℕ) (s : System P) (ts us : List Turn)
      → follow file decode load ch s (ts ++ us)
        ≡ follow file decode load ch (follow file decode load ch s ts) us
  unfolding follow
  follow-append ch s [] us = refl
  follow-append ch s (t ∷ ts) us = follow-append ch (turn file decode load ch s t) ts us

  rounds-IsTurn : (ch n : ℕ) → All (IsTurn file decode load ch) (rounds n)
  rounds-IsTurn ch zero = tt
  rounds-IsTurn ch (suc n) = (tt, (tt, rounds-IsTurn ch n))

  -- The object and the pool when the loop has its channel, after a first load.
  abbrev pub begun : Conf → P → System P
  begun c p = record { conf = (watch_event (file ∷ []) c).1; woken = false; pool = returned p }

  abbrev pub chan_of : Conf → ℕ
  chan_of c = (watch_event (file ∷ []) c).0

  begun-IsSynced :
      (c : Conf) (p : P)
      → IsValid c
      → IsStored c
      → IsPresent file c
      → IsCurrent file decode load c (returned p)
      → IsSynced file decode load (chan_of c) (begun c p)
  unfolding watch_event get
  begun-IsSynced c p v stored present current =
      let (behind, empty) = watch_event-Behind file c v in
      record {
        valid = watch_event-IsValid (file ∷ []) c v;
        behind = behind;
        stored = stored;
        present = present;
        runs = (p, refl);
        buf = [];
        held = empty;
        settled =
            inr (inr (get-IsCurrent file decode load c (begun c p).conf (returned p) refl current));
      }

  pub follow-loads :
      (c : Conf) (p : P) (ts : List Turn)
      → IsValid c
      → IsStored c
      → IsPresent file c
      → IsCurrent file decode load c (returned p)
      → All (IsTurn file decode load (chan_of c)) ts
      → let s =
          follow file decode load (chan_of c) (begun c p) (ts ++ (reads ∷ rounds def_ch_size)) in
        IsIdle (chan_of c) s × IsCurrent file decode load s.conf s.pool
  unfolding follow turn
  follow-loads c p ts v stored present current i =
      let ch = chan_of c in
      let after = follow file decode load ch (begun c p) ts in
      let k : IsSynced file decode load ch after =
        follow-IsSynced file decode load ch (begun c p) ts i
          (begun-IsSynced c p v stored present current) in
      let k' : IsSynced file decode load ch (read file decode load after) =
        read-IsSynced file decode load ch after k in
      let fits =
        All-get_elem? (λ (buf : List Event). length buf ≤ def_ch_size) _ ch k'.buf k'.valid.bounded
          k'.held in
      let s = follow file decode load ch (read file decode load after) (rounds def_ch_size) in
      let idle =
        rounds-IsIdle ch def_ch_size (read file decode load after) k'.buf (read-waits after).0
          k'.held fits in
      let synced =
        follow-IsSynced file decode load ch (read file decode load after) (rounds def_ch_size)
          (rounds-IsTurn ch def_ch_size) k' in
      subst (λ x. IsIdle ch x × IsCurrent file decode load x.conf x.pool)
        (sym (follow-append ch (begun c p) ts (reads ∷ rounds def_ch_size)))
        (idle, IsIdle-IsCurrent ch s idle synced)
