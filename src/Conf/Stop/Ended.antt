-- ===== src/Conf/Stop/Ended.antt =====
-- Which calls of Stop return, and what the monitor does after it has ended.
use motor.Base.{
  ℕ, ◌+◌, ◌<◌, ◌≤◌, Text, ◌≡◌, ◌⊎◌, inl, inr, refl, sym, ap, ◌∙◌, Option, none, some, List, [], ◌∷◌,
  arith, get_elem?,
}
use mathlib.Core.Option.{some-injective}
use motor.Conf.Watch.{Event, Conf, watch_event, receive}
use motor.Conf.Stop.{
  Monitor, starting, watching, closing, ended, System, start, Step, adds, fails, meets, calls_stop,
  sends, ends, waits, watches, receives, Steps, here, later,
}

-- How many calls of Stop the monitor has answered at most, and how many may have returned.
abbrev taken : Monitor → ℕ
taken starting = 0
taken watching = 0
taken closing = 1
taken ended = 1

abbrev over : Monitor → ℕ
over starting = 0
over watching = 0
over closing = 0
over ended = 1

abbrev pub IsOrderly : System → Type 0
IsOrderly s = (s.waiting + s.stopped ≤ taken s.monitor) × (s.stopped ≤ over s.monitor)

Step-IsOrderly : {goos : Text} {s t : System} → Step goos s t → IsOrderly s → IsOrderly t
Step-IsOrderly (adds e) h = ground arith
Step-IsOrderly (fails e) h = ground arith
Step-IsOrderly (meets x e f) h = h
Step-IsOrderly calls_stop h = h
Step-IsOrderly (sends e p) h = ground arith
Step-IsOrderly (ends e) h = ground arith
Step-IsOrderly (waits e p) h = ground arith
Step-IsOrderly (watches keys) h = h
Step-IsOrderly (receives ch e) h = h

Steps-IsOrderly : {goos : Text} {c : Conf} {s : System} → Steps goos (start c) s → IsOrderly s
Steps-IsOrderly here = omega arith
Steps-IsOrderly (later r st) = Step-IsOrderly st (Steps-IsOrderly r)

received-content :
    (ch : ℕ) (c : Conf) (o : Option (List Event)) (ev : Event) (c' : Conf)
    → get_elem? c.chans ch ≡ o
    → receive ch c ≡ some (ev, c')
    → c'.content ≡ c.content
unfolding receive
received-content ch c none ev c' e h = cc (rw (e, receive) at h)
received-content ch c (some []) ev c' e h = cc (rw (e, receive) at h)
received-content ch c (some (x ∷ rest)) ev c' e h =
    sym (ap (λ (p : Event × Conf). p.1.content) (some-injective _ _ (rw (e, receive) at h)))

-- What stays as it is once the monitor has ended.
abbrev pub IsOver : System → System → Type 0
IsOver s t =
    (t.monitor ≡ ended)
    × (t.conf.content ≡ s.conf.content)
    × (t.waiting + t.stopped ≡ s.waiting + s.stopped)
    × (s.stopped ≤ t.stopped)
    × (s.sending ≤ t.sending)

Step-IsOver : (goos : Text) (s t u : System) → Step goos t u → IsOver s t → IsOver s u
unfolding watch_event
Step-IsOver goos s t u (adds e) h = absurd (ground arith)
Step-IsOver goos s t u (fails e) h = absurd (ground arith)
Step-IsOver goos s t u (meets x e f) h = absurd (ground arith)
Step-IsOver goos s t u calls_stop h = ground arith
Step-IsOver goos s t u (sends e p) h = absurd (ground arith)
Step-IsOver goos s t u (ends e) h = absurd (ground arith)
Step-IsOver goos s t u (waits e p) h = ground arith
Step-IsOver goos s t u (watches keys) h = h
Step-IsOver goos s t u (receives ch {ev} {c} e) h =
    (h.0, received-content ch t.conf (get_elem? t.conf.chans ch) ev c refl e ∙ h.1, h.2, h.3, h.4)

Steps-IsOver : {goos : Text} {s t : System} → s.monitor ≡ ended → Steps goos s t → IsOver s t
Steps-IsOver e here = (e, refl, refl, omega arith, omega arith)
Steps-IsOver {goos} {s} e (later {t} {u} r st) = Step-IsOver goos s t u st (Steps-IsOver e r)

over-ended : (m : Monitor) → 0 < over m → m ≡ ended
over-ended starting p = absurd (omega arith)
over-ended watching p = absurd (omega arith)
over-ended closing p = absurd (omega arith)
over-ended ended p = refl

-- In any order of the steps of the monitor and of calls of Stop, WatchEvent and receives of
-- others: once the monitor has ended, or a call of Stop has returned, the storage stays as it is,
-- no call of Stop that has still to send gets further, and at most one call ever does.
pub stop-ended :
    {goos : Text} {c : Conf} {s t : System}
    → Steps goos (start c) s
    → (s.monitor ≡ ended) ⊎ (0 < s.stopped)
    → Steps goos s t
    → IsOver s t × (t.waiting + t.stopped ≤ 1)
stop-ended {s} r over more =
    let orderly = Steps-IsOrderly r in
    let e : s.monitor ≡ ended = elim over [
      | inl e ↦ e
      | inr p ↦ over-ended s.monitor (omega (arith, orderly.1))
    ] in
    let stays = Steps-IsOver e more in (stays, ground arith)
