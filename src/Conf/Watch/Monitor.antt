-- ===== src/Conf/Watch/Monitor.antt =====
-- The monitor's loop, and what a reader sees after a change.
use motor.Base.{
  ℕ, Text, Dict, true, false, ◌≡◌, refl, ap, inl, inr, none, some, List, [], ◌∷◌, ◌++◌, arith, In,
  All, base_name, insert, lookup, IsKeyed, count, subst, ◌∙◌, ◌≤◌, length, get_elem?, text_eq,
  text_eq_iff, Bool-cases, slice_at,
}
use motor.Base.Outcome.{returned}
use motor.Conf.Storage
use motor.Conf.Storage.{Value, Agrees, key_name}
use motor.Conf.Watch.{
  Conf, Event, def_ch_size, get, reload_file, Signal, fs_event, events_closed, watcher_error, done,
  monitor,
}
use motor.Conf.Watch.Notify.{Filtered, offered_full, chans-reload_file, update_of}

abbrev IsDone : Signal → Type 0
IsDone done = Unit
IsDone _ = ⊥

-- The monitor ends at the first stop request, after the signals before it, and takes none after
-- it.
monitor-done :
    (goos : Text) (before after : List Signal) (c : Conf)
    → All (λ s. ¬ IsDone s) before
    → monitor goos (before ++ (done ∷ after)) c ≡ (false, (monitor goos before c).1)
unfolding monitor
monitor-done goos [] after c h = refl
monitor-done goos (fs_event true name content ∷ ss) after c h =
    monitor-done goos ss after (reload_file goos name content c) h.1
monitor-done goos (fs_event false name content ∷ ss) after c h = monitor-done goos ss after c h.1
monitor-done goos (events_closed ∷ ss) after c h = monitor-done goos ss after c h.1
monitor-done goos (watcher_error ∷ ss) after c h = monitor-done goos ss after c h.1
monitor-done goos (done ∷ ss) after c h = absurd (h.0 tt)

In-insert : (k : Text) (v : Value) (m : Dict Value) → In (k, v) (insert k v m)
unfolding insert
In-insert k v [] = inl refl
In-insert k v ((j, w) ∷ m) = elim (Bool-cases (text_eq j k)) [
  | inl e ↦ rw e (inl refl)
  | inr e ↦ rw e (inr (In-insert k v m))
]

-- No other file's name differs from the key in case only.
abbrev pub NoTwin : Text → Dict Value → Type 0
NoTwin key m = All (λ (p : Text × Value). key_name p.0 ≡ key_name key → p.0 ≡ key) m

Agrees-absent :
    (k : Text) (v : Value) (m : Dict Value)
    → lookup k m ≡ none
    → NoTwin k m
    → Agrees (key_name k) v m
unfolding lookup
Agrees-absent k v [] n h = tt
Agrees-absent k v ((j, w) ∷ m) n h = elim (Bool-cases (text_eq j k)) [
  | inl e ↦ absurd (ground arith)
  | inr e ↦ (
    λ same. absurd (ground (arith, text_eq_iff j k, h.0 same)),
    Agrees-absent k v m (ground arith) h.1,
  )
]

Agrees-insert :
    (k : Text) (v : Value) (m : Dict Value)
    → IsKeyed m
    → NoTwin k m
    → Agrees (key_name k) v (insert k v m)
unfolding insert
Agrees-insert k v [] d h = (λ _. refl, tt)
Agrees-insert k v ((j, w) ∷ m) d h = elim (Bool-cases (text_eq j k)) [
  | inl e ↦ rw e (
    λ _. refl,
    Agrees-absent k v m (subst (λ q. lookup q m ≡ none) ((text_eq_iff j k).0 e) d.0) h.1,
  )
  | inr e ↦
      rw e (λ same. absurd (ground (arith, text_eq_iff j k, h.0 same)), Agrees-insert k v m d.1 h.1)
]

pub reload_file-content :
    (goos name val : Text) (c : Conf)
    → ¬ Filtered goos name
    → (reload_file goos name (some val) c).content
      ≡ Storage.store (insert (base_name name) (record { raw = val }) c.raw)
unfolding reload_file
reload_file-content goos name val c f = ground arith

pub reload_file-raw :
    (goos name val : Text) (c : Conf)
    → ¬ Filtered goos name
    → (reload_file goos name (some val) c).raw
      ≡ insert (base_name name) (record { raw = val }) c.raw
unfolding reload_file
reload_file-raw goos name val c f = ground arith

-- After a change of a file that is not filtered and is read, Get of its name in any case gives the
-- new text, if the map holds no name twice and no other name that differs from it in case only.
get-reload_file :
    (goos name val key : Text) (c : Conf)
    → ¬ Filtered goos name
    → IsKeyed c.raw
    → NoTwin (base_name name) c.raw
    → key_name (base_name name) ≡ key_name key
    → get (reload_file goos name (some val) c) key ≡ returned (some (record { raw = val }))
unfolding get
get-reload_file goos name val key c f d h e = rw (reload_file-content goos name val c f) (
    Storage.get-store (insert (base_name name) new c.raw) key (base_name name) new
      (In-insert (base_name name) new c.raw) e
      (subst (λ q. Agrees q new (insert (base_name name) new c.raw)) e
        (Agrees-insert (base_name name) new c.raw d h)))
  where
    new : Value
    new = record { raw = val }

-- At a change of a file that is not filtered and is read, a channel that is full keeps what it
-- held, while Get of the name in any case gives the new text, if the map holds no name twice and
-- no other name that differs in case only.
pub reload_file-discards :
    (goos name val key : Text) (c : Conf) (ch : ℕ) (buf : List Event)
    → ¬ Filtered goos name
    → IsKeyed c.raw
    → NoTwin (base_name name) c.raw
    → key_name (base_name name) ≡ key_name key
    → get_elem? c.chans ch ≡ some buf
    → def_ch_size ≤ length buf
    → (get_elem? (reload_file goos name (some val) c).chans ch ≡ some buf)
      × (get (reload_file goos name (some val) c) key ≡ returned (some (record { raw = val })))
reload_file-discards goos name val key c ch buf f d h e here full = (
  chans-reload_file goos name val c ch f
      ∙ rw here (
          ap some (
            offered_full (count ch (slice_at (base_name name) c.watch_chs))
              (update_of (base_name name) val) buf full)),
  get-reload_file goos name val key c f d h e,
)
