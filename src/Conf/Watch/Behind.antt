-- ===== src/Conf/Watch/Behind.antt =====
-- What a call of the object does to one channel that stands behind one name.
use Prim.Native.Nat.{min}
use motor.Base.{
  ℕ, ◌+◌, ◌-◌, ◌≤◌, ◌<◌, Text, Dict, true, ◌≡◌, ◌≢◌, refl, sym, ap, subst, ◌∙◌, inl, inr, Option,
  none, some, List, [], ◌∷◌, ◌++◌, map, arith, length, get_elem?, get_elem?-modify,
  get_elem?-append_left, get_elem?_in_range, Bool-cases, Option-cases, count, slice_at, append_at,
  slice_at-append_at, text_eq, text_eq_iff, base_name, occurrences, get_elem?-append_self,
  if◌then◌else◌,
}
use mathlib.Core.List.{append-nil}
use motor.Conf.Watch.{
  Event, Conf, def_ch_size, watch_loop, watch_event, reload_file, publish, receive,
}
use motor.Conf.Files.{filter_hide_file, filter_backup_file}
use motor.Conf.Watch.Notify.{
  copies, offered, offered-zero, chans-reload_file, Filtered, update_of, reload_file-ignored,
}
use motor.Conf.Watch.Subscribe.{
  Call, watches, changes, receives, after_receive, step, count-append, IsValid,
  count-slice_at-watch_loop, count_fresh,
}

-- Channel `ch` stands once behind `key`, and behind no other name.
abbrev pub Behind : ℕ → Text → Dict (List ℕ) → Type 0
Behind ch key m = (q : Text) → count ch (slice_at q m) ≡ (if text_eq q key then 1 else 0)

-- The texts that a call sends under `key`.
abbrev pub posted : Text → Call → List Text
posted key (watches keys) = []
posted key (receives ch) = []
posted key (changes goos name none) = []
posted key (changes goos name (some val)) =
    if filter_hide_file goos name
    then []
    else if filter_backup_file goos name
    then []
    else if text_eq (base_name name) key
    then val ∷ []
    else []

abbrev pub updates : Text → List Text → List Event
updates key vals = map (update_of key) vals

count-one : (i j : ℕ) → i ≢ j → count i (j ∷ []) ≡ 0
unfolding count
count-one i j h = ground arith

count-watch_loop :
    (ch j : ℕ) (m : Dict (List ℕ)) (keys : List Text) (q : Text)
    → ch ≢ j
    → count ch (slice_at q (watch_loop j m keys)) ≡ count ch (slice_at q m)
unfolding watch_loop
count-watch_loop ch j m [] q h = refl
count-watch_loop ch j m (k ∷ keys) q h = ground (
  arith,
  count-watch_loop ch j (append_at k j m) keys q h,
  slice_at-append_at k q j m,
  count-append ch (slice_at q m) (j ∷ []),
  count-one ch j h,
)

reload_file-watch_chs :
    (goos name : Text) (content : Option Text) (c : Conf)
    → (reload_file goos name content c).watch_chs ≡ c.watch_chs
unfolding reload_file publish
reload_file-watch_chs goos name none c = ground arith
reload_file-watch_chs goos name (some val) c = ground arith

receive-watch_chs : (ch : ℕ) (c : Conf) → (after_receive c (receive ch c)).watch_chs ≡ c.watch_chs
unfolding receive after_receive
receive-watch_chs ch c = ground arith

receive-other :
    (ch j : ℕ) (c : Conf)
    → j ≢ ch
    → get_elem? (after_receive c (receive j c)).chans ch ≡ get_elem? c.chans ch
unfolding receive after_receive
receive-other ch j c h = elim (Option-cases (get_elem? c.chans j)) [
  | inl e ↦ ground (arith, e)
  | inr ([], e) ↦ ground (arith, e)
  | inr (ev ∷ rest, e) ↦ ground (arith, e, h, get_elem?-modify j ch (λ _. rest) c.chans)
]

pub step-Behind :
    (ch : ℕ) (key : Text) (c : Conf) (s : Call)
    → ch < length c.chans
    → Behind ch key c.watch_chs
    → Behind ch key (step c s).watch_chs
unfolding step watch_event
step-Behind ch key c (watches keys) h b =
    λ q. count-watch_loop ch (length c.chans) c.watch_chs keys q (λ e. ground (arith, e, h)) ∙ b q
step-Behind ch key c (changes goos name content) h b =
    subst (Behind ch key) (sym (reload_file-watch_chs goos name content c)) b
step-Behind ch key c (receives j) h b = subst (Behind ch key) (sym (receive-watch_chs j c)) b

offered-one :
    (ev : Event) (buf : List Event) → length buf < def_ch_size → offered 1 ev buf ≡ buf ++ (ev ∷ [])
unfolding offered copies
offered-one ev buf h = let e : min 1 (def_ch_size - length buf) ≡ 1 = omega arith in rw e refl

post-buffer :
    (ch : ℕ) (key goos name val : Text) (c : Conf) (buf : List Event)
    → Behind ch key c.watch_chs
    → get_elem? c.chans ch ≡ some buf
    → (text_eq (base_name name) key ≡ true → length buf < def_ch_size)
    → ¬ Filtered goos name
    → get_elem? (reload_file goos name (some val) c).chans ch
      ≡ some (buf ++ updates key (if text_eq (base_name name) key then val ∷ [] else []))
post-buffer ch key goos name val c buf b here room f =
    let put = chans-reload_file goos name val c ch f in
    elim (Bool-cases (text_eq (base_name name) key)) [
      | inl same ↦
          let named = (text_eq_iff (base_name name) key).0 same in
          rw (put, here, b (base_name name), same)
            (ap some (offered-one (update_of (base_name name) val) buf (room same))
              ∙ ap (λ n. some (buf ++ (update_of n val ∷ []))) named)
      | inr other ↦
          rw (put, here, b (base_name name), other)
            (ap some (offered-zero (update_of (base_name name) val) buf ∙ sym (append-nil buf)))
    ]

-- A call by another goroutine puts the texts that it sends under the name behind what the channel
-- holds, where that has room for them.
pub step-buffer :
    (ch : ℕ) (key : Text) (c : Conf) (s : Call) (buf : List Event)
    → Behind ch key c.watch_chs
    → s ≢ receives ch
    → get_elem? c.chans ch ≡ some buf
    → length buf + length (posted key s) ≤ def_ch_size
    → get_elem? (step c s).chans ch ≡ some (buf ++ updates key (posted key s))
unfolding step watch_event
step-buffer ch key c (watches keys) buf b other here room =
    get_elem?-append_left c.chans ([] ∷ []) ch (get_elem?_in_range c.chans ch buf here)
    ∙ here
    ∙ ap some (sym (append-nil buf))
step-buffer ch key c (receives j) buf b other here room =
    receive-other ch j c (λ e. other (ap receives e)) ∙ here ∙ ap some (sym (append-nil buf))
step-buffer ch key c (changes goos name none) buf b other here room =
    let e = reload_file-ignored goos name none c (inr refl) in
    ap (λ (x : Conf). get_elem? x.chans ch) e ∙ here ∙ ap some (sym (append-nil buf))
step-buffer ch key c (changes goos name (some val)) buf b other here room =
    let kept = λ (f : Filtered goos name).
      ap (λ (x : Conf). get_elem? x.chans ch) (reload_file-ignored goos name (some val) c (inl f))
      ∙ here
      ∙ ap some (sym (append-nil buf)) in
    elim (Bool-cases (filter_hide_file goos name)) [
      | inl hide ↦ rw hide (kept (inl hide))
      | inr show ↦ elim (Bool-cases (filter_backup_file goos name)) [
        | inl backup ↦ rw (show, backup) (kept (inr backup))
        | inr plain ↦
            let no_filter : ¬ Filtered goos name =
              λ f. elim f [ inl p ↦ cc (p, show) | inr p ↦ cc (p, plain) ] in
            let fits : text_eq (base_name name) key ≡ true → length buf < def_ch_size =
              λ same. ground (arith, room, show, plain, same) in
            rw (show, plain) (post-buffer ch key goos name val c buf b here fits no_filter)
      ]
    ]

-- The channel that WatchEvent of one name makes is empty and behind that name.
pub watch_event-Behind :
    (key : Text) (c : Conf)
    → IsValid c
    → let (ch, c') = watch_event (key ∷ []) c in
      Behind ch key c'.watch_chs × (get_elem? c'.chans ch ≡ some [])
unfolding watch_event occurrences
watch_event-Behind key c v = (
  (λ q. ground (
    arith,
    count-slice_at-watch_loop (length c.chans) c.watch_chs (key ∷ []) q,
    count_fresh (length c.chans) (slice_at q c.watch_chs) (v.known q),
    text_eq_iff key q,
    text_eq_iff q key,
  )),
  get_elem?-append_self c.chans [],
)
