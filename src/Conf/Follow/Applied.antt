-- ===== src/Conf/Follow/Applied.antt =====
-- What the setter of Watch has been given after any changes of the files.
use mathlib.Core.List.{append-nil, append_assoc}
use motor.Base.{
  ℕ, zero, suc, ◌+◌, ◌≤◌, Text, Bool, ◌≡◌, ◌≢◌, refl, sym, ap, subst, ◌∙◌, some, List, [], ◌∷◌,
  ◌++◌, arith, All, length, length-append, replicate, modify, get_elem?, get_elem?-modify,
  get_elem?_in_range,
}
use motor.Conf.Watch.{Event, Conf, def_ch_size, receive}
use motor.Conf.Watch.Notify.{update_of}
use motor.Conf.Watch.Subscribe.{Call, receives, IsValid}
use motor.Conf.Watch.Behind.{Behind, posted, updates, step-Behind, step-buffer, watch_event-Behind}
use motor.Conf.Follow.{System, Turn, takes, calls, subscribe, on_event, turn, follow}

-- The texts that a turn sends under the name, and those of several.
abbrev pub text_of : Text → Turn → List Text
text_of key takes = []
text_of key (calls c) = posted key c

abbrev pub texts : Text → List Turn → List Text
texts key [] = []
texts key (t ∷ ts) = text_of key t ++ texts key ts

-- Other goroutines have other channels.
abbrev pub IsTurn : ℕ → Turn → Type 0
IsTurn ch takes = Unit
IsTurn ch (calls c) = c ≢ receives ch

updates-append :
    (key : Text) (a b : List Text) → updates key (a ++ b) ≡ updates key a ++ updates key b
updates-append key [] b = refl
updates-append key (v ∷ a) b = ap (λ l. update_of key v ∷ l) (updates-append key a b)

length-updates : (key : Text) (a : List Text) → length (updates key a) ≡ length a
length-updates key [] = refl
length-updates key (v ∷ a) = omega (arith, length-updates key a)

module _ {S : Type 0} (set : Text → S → Bool × S) where
  -- A setter that is given one text after the other.
  abbrev pub applies : List Text → S → S
  applies [] s = s
  applies (v ∷ vs) s = applies vs (set v s).1

  applies-append : (a b : List Text) (s : S) → applies (a ++ b) s ≡ applies b (applies a s)
  applies-append [] b s = refl
  applies-append (v ∷ a) b s = applies-append a b (set v s).1

  module _ (ch : ℕ) (key : Text) (s0 : S) where
    -- Of the texts `vals` all but `pending` were given to the setter, and these are in the channel.
    abbrev Holds : System S → List Text → List Text → Type 0
    Holds s vals pending =
        Behind ch key s.conf.watch_chs
        × (get_elem? s.conf.chans ch ≡ some (updates key pending))
        × ((applied : List Text) × (applied ++ pending ≡ vals) × (s.setter ≡ applies applied s0))

    calls-Holds :
        (s : System S) (c : Call) (vals pending : List Text)
        → c ≢ receives ch
        → length (vals ++ posted key c) ≤ def_ch_size
        → Holds s vals pending
        → Holds (turn set ch s (calls c)) (vals ++ posted key c) (pending ++ posted key c)
    unfolding turn
    calls-Holds s c vals pending other le (b, here, (applied, whole, same)) =
        let room : length (updates key pending) + length (posted key c) ≤ def_ch_size = omega (
          arith,
          length-updates key pending,
          ap length whole,
          length-append applied pending,
          length-append vals (posted key c),
          le,
        ) in
        (
          step-Behind ch key s.conf c
              (get_elem?_in_range s.conf.chans ch (updates key pending) here) b,
          step-buffer ch key s.conf c (updates key pending) b other here room
              ∙ ap some (sym (updates-append key pending (posted key c))),
          (
            applied,
            sym (append_assoc applied pending (posted key c)) ∙ ap (λ l. l ++ posted key c) whole,
            same,
          ),
        )

    takes-Holds_none :
        (s : System S) (vals : List Text) → Holds s vals [] → Holds (turn set ch s takes) vals []
    unfolding turn on_event receive
    takes-Holds_none s vals (b, here, more) = rw (here, receive) (b, here, more)

    takes-Holds :
        (s : System S) (v : Text) (vals pending : List Text)
        → Holds s vals (v ∷ pending)
        → Holds (turn set ch s takes) vals pending
    unfolding turn on_event receive
    takes-Holds s v vals pending (b, here, (applied, whole, same)) =
        let rest = λ (l : List Event). updates key pending in
        let taken : System S = record {
          conf = record s.conf { chans = modify ch rest s.conf.chans };
          setter = (set v s.setter).1;
        } in
        let q : turn set ch s takes ≡ taken = rw (here, receive) refl in
        subst (λ x. Holds x vals pending) (sym q)
          (
            b,
            ground (arith, get_elem?-modify ch ch rest s.conf.chans, here),
            (
              applied ++ (v ∷ []),
              append_assoc applied (v ∷ []) pending ∙ whole,
              ap (λ x. (set v x).1) same ∙ sym (applies-append applied (v ∷ []) s0),
            ),
          )

    turn-Holds :
        (s : System S) (t : Turn) (vals pending : List Text)
        → IsTurn ch t
        → length (vals ++ text_of key t) ≤ def_ch_size
        → Holds s vals pending
        → (rest : List Text) × Holds (turn set ch s t) (vals ++ text_of key t) rest
    turn-Holds s takes vals [] i le h = (
      [],
      subst (λ l. Holds (turn set ch s takes) l []) (sym (append-nil vals))
          (takes-Holds_none s vals h),
    )
    turn-Holds s takes vals (v ∷ pending) i le h = (
      pending,
      subst (λ l. Holds (turn set ch s takes) l pending) (sym (append-nil vals))
          (takes-Holds s v vals pending h),
    )
    turn-Holds s (calls c) vals pending i le h =
        (pending ++ posted key c, calls-Holds s c vals pending i le h)

    follow-Holds :
        (s : System S) (ts : List Turn) (vals pending : List Text)
        → All (IsTurn ch) ts
        → length (vals ++ texts key ts) ≤ def_ch_size
        → Holds s vals pending
        → (rest : List Text) × Holds (follow set ch s ts) (vals ++ texts key ts) rest
    unfolding follow
    follow-Holds s [] vals pending i le h =
        (pending, subst (λ l. Holds s l pending) (sym (append-nil vals)) h)
    follow-Holds s (t ∷ ts) vals pending i le h =
        let assoc = append_assoc vals (text_of key t) (texts key ts) in
        let total : length ((vals ++ text_of key t) ++ texts key ts) ≤ def_ch_size =
          subst (λ l. length l ≤ def_ch_size) (sym assoc) le in
        let first : length (vals ++ text_of key t) ≤ def_ch_size =
          omega (arith, total, length-append (vals ++ text_of key t) (texts key ts)) in
        let (rest, holds) = turn-Holds s t vals pending i.0 first h in
        let (rest', holds') =
          follow-Holds (turn set ch s t) ts (vals ++ text_of key t) rest i.1 total holds in
        (rest', subst (λ l. Holds (follow set ch (turn set ch s t) ts) l rest') assoc holds')

    -- As many takes as there are texts in the channel empty it.
    drain-Holds :
        (n : ℕ) (s : System S) (vals pending : List Text)
        → length pending ≤ n
        → Holds s vals pending
        → Holds (follow set ch s (replicate n takes)) vals []
    unfolding follow
    drain-Holds zero s vals [] le h = h
    drain-Holds zero s vals (v ∷ pending) le h = absurd (omega arith)
    drain-Holds (suc n) s vals [] le h =
        drain-Holds n (turn set ch s takes) vals [] (omega arith) (takes-Holds_none s vals h)
    drain-Holds (suc n) s vals (v ∷ pending) le h =
        drain-Holds n (turn set ch s takes) vals pending (omega arith)
          (takes-Holds s v vals pending h)

    follow-append :
        (s : System S) (ts us : List Turn)
        → follow set ch s (ts ++ us) ≡ follow set ch (follow set ch s ts) us
    unfolding follow
    follow-append s [] us = refl
    follow-append s (t ∷ ts) us = follow-append (turn set ch s t) ts us

  -- Whatever calls of the object other goroutines make around the goroutine of Watch, in a valid
  -- object and once it has its channel: if no more than ten texts are sent under its name, then
  -- ten turns of its own after them leave the channel empty, and the setter has been given each of
  -- these texts, once and in their order.
  pub follow-applies :
      (key : Text) (c : Conf) (s0 : S) (ts : List Turn)
      → IsValid c
      → All (IsTurn (subscribe set key c).0) ts
      → length (texts key ts) ≤ def_ch_size
      → let (ch, c') = subscribe set key c in
        let s =
          follow set ch (record { conf = c'; setter = s0 }) (ts ++ replicate def_ch_size takes) in
        (s.setter ≡ applies (texts key ts) s0) × (get_elem? s.conf.chans ch ≡ some [])
  unfolding subscribe
  follow-applies key c s0 ts v i le =
      let (ch, c') = subscribe set key c in
      let start : System S = record { conf = c'; setter = s0 } in
      let (behind, empty) = watch_event-Behind key c v in
      let (rest, holds) =
        follow-Holds ch key s0 start ts [] [] i le (behind, empty, ([], refl, refl)) in
      let (b0, here0, (given, all, same0)) = holds in
      let small : length rest ≤ def_ch_size =
        omega (arith, le, ap length all, length-append given rest) in
      let (b, here, (applied, whole, same)) =
        drain-Holds ch key s0 def_ch_size (follow set ch start ts) (texts key ts) rest small
          holds in
      subst (λ x. (x.setter ≡ applies (texts key ts) s0) × (get_elem? x.conf.chans ch ≡ some []))
        (sym (follow-append ch key s0 start ts (replicate def_ch_size takes)))
        (same ∙ ap (λ l. applies l s0) (sym (append-nil applied) ∙ whole), here)
