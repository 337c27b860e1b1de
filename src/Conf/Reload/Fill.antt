-- ===== src/Conf/Reload/Fill.antt =====
-- What a call of another goroutine does to a channel, full or not.
use motor.Base.{
  ℕ, ◌+◌, ◌≤◌, ltb, Text, ◌≡◌, ◌≢◌, inl, inr, refl, ap, ◌∙◌, none, some, List, [], ◌∷◌, ◌++◌, arith,
  length, length-append, get_elem?, base_name, Bool-cases, count, slice_at,
}
use motor.Conf.Watch.{Event, Conf, def_ch_size, reload_file}
use motor.Conf.Watch.Notify.{
  Filtered, update_of, offered_full, chans-reload_file, reload_file-ignored,
}
use motor.Conf.Watch.Subscribe.{Call, watches, changes, receives, step}
use motor.Conf.Watch.Behind.{Behind, posted, updates, step-buffer}
use motor.Conf.Reload.Found.{Filtered-cases}

-- No less than the channel held, and an event where the call sends a text under the name.
abbrev pub Filled : ℕ → Text → Conf → Call → List Event → Type 0
Filled ch key c s buf =
    (buf' : List Event) × (get_elem? (step c s).chans ch ≡ some buf')
    × (length buf ≤ length buf')
    × (length (posted key s) ≤ length buf')

length-updates : (key : Text) (a : List Text) → length (updates key a) ≡ length a
length-updates key [] = refl
length-updates key (v ∷ a) = omega (arith, length-updates key a)

room-Filled :
    (ch : ℕ) (key : Text) (c : Conf) (s : Call) (buf : List Event)
    → Behind ch key c.watch_chs
    → s ≢ receives ch
    → get_elem? c.chans ch ≡ some buf
    → length buf + length (posted key s) ≤ def_ch_size
    → Filled ch key c s buf
room-Filled ch key c s buf b other here room = (
  buf ++ updates key (posted key s),
  step-buffer ch key c s buf b other here room,
  omega (arith, length-append buf (updates key (posted key s))),
  omega (arith, length-append buf (updates key (posted key s)), length-updates key (posted key s)),
)

-- A full channel keeps what it holds.
full-Filled :
    (ch : ℕ) (key goos name val : Text) (c : Conf) (buf : List Event)
    → ¬ Filtered goos name
    → get_elem? c.chans ch ≡ some buf
    → def_ch_size ≤ length buf
    → get_elem? (reload_file goos name (some val) c).chans ch ≡ some buf
full-Filled ch key goos name val c buf f here full =
    chans-reload_file goos name val c ch f
    ∙ rw here (
        ap some (
          offered_full (count ch (slice_at (base_name name) c.watch_chs))
            (update_of (base_name name) val) buf full))

posted-small : (key : Text) (s : Call) → length (posted key s) ≤ 1
posted-small key (watches keys) = omega arith
posted-small key (receives ch) = omega arith
posted-small key (changes goos name none) = omega arith
posted-small key (changes goos name (some val)) = ground arith

full_kept :
    (ch : ℕ) (key goos name val : Text) (c : Conf) (buf : List Event)
    → get_elem? c.chans ch ≡ some buf
    → def_ch_size ≤ length buf
    → get_elem? (step c (changes goos name (some val))).chans ch ≡ some buf
unfolding step
full_kept ch key goos name val c buf here full = elim (Filtered-cases goos name) [
  | inl f ↦
      ap (λ (x : Conf). get_elem? x.chans ch) (reload_file-ignored goos name (some val) c (inl f))
      ∙ here
  | inr f ↦ full-Filled ch key goos name val c buf f here full
]

pub step-Filled :
    (ch : ℕ) (key : Text) (c : Conf) (s : Call) (buf : List Event)
    → Behind ch key c.watch_chs
    → s ≢ receives ch
    → get_elem? c.chans ch ≡ some buf
    → length buf ≤ def_ch_size
    → Filled ch key c s buf
step-Filled ch key c (watches keys) buf b other here le =
    room-Filled ch key c (watches keys) buf b other here (omega (arith, le))
step-Filled ch key c (receives j) buf b other here le =
    room-Filled ch key c (receives j) buf b other here (omega (arith, le))
step-Filled ch key c (changes goos name none) buf b other here le =
    room-Filled ch key c (changes goos name none) buf b other here (omega (arith, le))
step-Filled ch key c (changes goos name (some val)) buf b other here le =
    let s = changes goos name (some val) in
    let small = posted-small key s in
    elim (Bool-cases (ltb (length buf) def_ch_size)) [
      | inl room ↦ room-Filled ch key c s buf b other here (ground (arith, small, room))
      | inr full ↦
          let at_least : def_ch_size ≤ length buf = ground (arith, full) in
          (
            buf,
            full_kept ch key goos name val c buf here at_least,
            omega arith,
            omega (arith, small, at_least),
          )
    ]
