-- ===== src/Conf/Watch/Notify.antt =====
-- Which events a change puts into which channel.
use Prim.Native.Nat.{min}
use mathlib.Core.List.{append-nil, append_assoc}
use mathlib.Core.Option
use motor.Base.{
  ℕ, ◌+◌, ◌-◌, ◌≤◌, ◌<◌, zero, suc, Text, true, ◌≡◌, refl, sym, ap, ◌∙◌, ◌⊎◌, inl, inr, Option,
  none, some, List, [], ◌∷◌, ◌++◌, arith, length, length-append, length-modify, modify, get_elem?,
  get_elem?-modify, Bool-cases, Option-cases, count, slice_at, base_name, ltb,
}
use motor.Conf.Files.{filter_hide_file, filter_backup_file}
use motor.Conf.Watch.{Event, event_update, Conf, def_ch_size, offer, notify, reload_file}

unfoldable pub copies : ℕ → Event → List Event
copies zero ev = []
copies (suc n) ev = ev ∷ copies n ev

-- What a channel holds after `n` sends of one event that do not wait: as many copies as it has
-- room for, behind what it held.
unfoldable pub offered : ℕ → Event → List Event → List Event
offered n ev buf = buf ++ copies (min n (def_ch_size - length buf)) ev

length-copies : (n : ℕ) (ev : Event) → length (copies n ev) ≡ n
unfolding copies
length-copies zero ev = refl
length-copies (suc n) ev = omega (arith, length-copies n ev)

pub length-offered :
    (n : ℕ) (ev : Event) (buf : List Event)
    → length buf ≤ def_ch_size
    → length (offered n ev buf) ≤ def_ch_size
unfolding offered
length-offered n ev buf h = omega (
  arith,
  length-append buf (copies (min n (def_ch_size - length buf)) ev),
  length-copies (min n (def_ch_size - length buf)) ev,
)

pub offered-zero : (ev : Event) (buf : List Event) → offered 0 ev buf ≡ buf
unfolding offered copies
offered-zero ev buf =
    let e : min 0 (def_ch_size - length buf) ≡ 0 = omega arith in rw e (append-nil buf)

pub offered_full :
    (n : ℕ) (ev : Event) (buf : List Event) → def_ch_size ≤ length buf → offered n ev buf ≡ buf
unfolding offered copies
offered_full n ev buf h =
    let e : min n (def_ch_size - length buf) ≡ 0 = omega arith in rw e (append-nil buf)

offered_room :
    (n : ℕ) (ev : Event) (buf : List Event)
    → length buf < def_ch_size
    → offered n ev (buf ++ (ev ∷ [])) ≡ offered (suc n) ev buf
unfolding offered copies
offered_room n ev buf h =
    let e : min (suc n) (def_ch_size - length buf)
        ≡ suc (min n (def_ch_size - length (buf ++ (ev ∷ [])))) =
      omega (arith, length-append buf (ev ∷ [])) in
    rw (e, append_assoc)

offered-offer :
    (n : ℕ) (ev : Event) (buf : List Event) → offered n ev (offer ev buf) ≡ offered (suc n) ev buf
unfolding offer
offered-offer n ev buf = elim (Bool-cases (ltb (length buf) def_ch_size)) [
  | inl room ↦ rw room (offered_room n ev buf (ground arith))
  | inr full ↦
      rw full
        (offered_full n ev buf (ground arith) ∙ sym (offered_full (suc n) ev buf (ground arith)))
]

get_elem?-notify :
    (ev : Event) (chs : List ℕ) (chans : List (List Event)) (i : ℕ)
    → get_elem? (notify ev chs chans) i ≡ Option.map (offered (count i chs) ev) (get_elem? chans i)
unfolding notify count
get_elem?-notify ev [] chans i = elim (Option-cases (get_elem? chans i)) [
  | inl e ↦ rw e
  | inr (buf, e) ↦ rw e (ap some (sym (offered-zero ev buf)))
]
get_elem?-notify ev (ch ∷ chs) chans i = elim (Option-cases (get_elem? chans i)) [
  | inl e ↦ ground (
    arith,
    get_elem?-notify ev chs (modify ch (offer ev) chans) i,
    get_elem?-modify ch i (offer ev) chans,
  )
  | inr (buf, e) ↦ ground (
    arith,
    get_elem?-notify ev chs (modify ch (offer ev) chans) i,
    get_elem?-modify ch i (offer ev) chans,
    offered-offer (count i chs) ev buf,
    ones (count i chs),
  )
]
  where
    ones : (k : ℕ) → 1 + k ≡ suc k
    ones k = omega arith

pub length-notify :
    (ev : Event) (chs : List ℕ) (chans : List (List Event))
    → length (notify ev chs chans) ≡ length chans
unfolding notify
length-notify ev [] chans = refl
length-notify ev (ch ∷ chs) chans =
    omega
      (arith, length-notify ev chs (modify ch (offer ev) chans), length-modify ch (offer ev) chans)

-- Is the name one whose changes are ignored?
abbrev pub Filtered : Text → Text → Type 0
Filtered goos name = (filter_hide_file goos name ≡ true) ⊎ (filter_backup_file goos name ≡ true)

abbrev pub update_of : Text → Text → Event
update_of key val = record { op = event_update; key = key; val = val }

-- A change of a file that is not filtered and is read puts into every channel one event for each
-- time that the channel stands behind the file's name, as far as it has room, behind the events
-- that it holds.
pub chans-reload_file :
    (goos name val : Text) (c : Conf) (i : ℕ)
    → ¬ Filtered goos name
    → get_elem? (reload_file goos name (some val) c).chans i
      ≡ Option.map
          (offered
            (count i (slice_at (base_name name) c.watch_chs))
            (update_of (base_name name) val))
          (get_elem? c.chans i)
unfolding reload_file
chans-reload_file goos name val c i h = ground (
  arith,
  get_elem?-notify (update_of (base_name name) val) (slice_at (base_name name) c.watch_chs) c.chans
      i,
)

-- A change of a file that is filtered, or that cannot be read, changes nothing.
pub reload_file-ignored :
    (goos name : Text) (content : Option Text) (c : Conf)
    → Filtered goos name ⊎ (content ≡ none)
    → reload_file goos name content c ≡ c
unfolding reload_file
reload_file-ignored goos name content c h = ground arith
