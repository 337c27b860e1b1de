-- ===== src/Conf/Watch/Subscribe.antt =====
-- Channels and the names that they stand behind.
use Prim.Native.Nat.{min}
use motor.Base.{
  ℕ, ◌+◌, ◌≤◌, ◌<◌, Text, Dict, ◌≡◌, refl, ◌∙◌, inl, inr, Option, none, some, List, [], ◌∷◌, ◌++◌,
  arith, length, length-append, length-modify, modify, get_elem?, get_elem?-append_self, Bool-cases,
  count, All, All-get_elem?, All-modify, All-append, slice_at, append_at, slice_at-append_at,
  text_eq, occurrences, base_name, lookup, IsKeyed, insert-IsKeyed,
}
use motor.Conf.Watch.{
  Event, Conf, def_ch_size, offer, notify, watch_loop, watch_event, reload_file, publish, receive,
  new_conf,
}
use motor.Conf.Files.{Stat, load_dir-IsKeyed, ok, filter_hide_file, filter_backup_file}
use motor.Conf.Watch.Notify.{copies, offered, length-notify, chans-reload_file, Filtered, update_of}

-- Every buffer is within its size, only channels that exist stand behind a name, and no file
-- stands twice in the map.
pub record IsValid (c : Conf) : Type 0 where
  pub keyed : IsKeyed c.raw
  pub bounded : All (λ (buf : List Event). length buf ≤ def_ch_size) c.chans
  pub known : (key : Text) → All (λ ch. ch < length c.chans) (slice_at key c.watch_chs)

pub count-append : (i : ℕ) (xs ys : List ℕ) → count i (xs ++ ys) ≡ count i xs + count i ys
unfolding count
count-append i [] ys = omega arith
count-append i (x ∷ xs) ys = omega (arith, count-append i xs ys)

pub count-slice_at-watch_loop :
    (ch : ℕ) (m : Dict (List ℕ)) (keys : List Text) (key : Text)
    → count ch (slice_at key (watch_loop ch m keys))
      ≡ occurrences key keys + count ch (slice_at key m)
unfolding watch_loop occurrences
count-slice_at-watch_loop ch m [] key = omega arith
count-slice_at-watch_loop ch m (k ∷ keys) key = ground (
  arith,
  count-slice_at-watch_loop ch (append_at k ch m) keys key,
  slice_at-append_at k key ch m,
  count-append ch (slice_at key m) (ch ∷ []),
  one,
)
  where
    one : count ch (ch ∷ []) ≡ 1
    one = unfold count in ground arith

pub count_fresh : (n : ℕ) (xs : List ℕ) → All (λ x. x < n) xs → count n xs ≡ 0
unfolding count
count_fresh n [] h = refl
count_fresh n (x ∷ xs) h = ground (arith, count_fresh n xs h.1)

All-lt_mono : (n m : ℕ) (xs : List ℕ) → n ≤ m → All (λ x. x < n) xs → All (λ x. x < m) xs
All-lt_mono n m [] h a = tt
All-lt_mono n m (x ∷ xs) h a = (omega arith, All-lt_mono n m xs h a.1)

watch_loop-known :
    (ch n : ℕ) (m : Dict (List ℕ)) (keys : List Text)
    → ch < n
    → ((key : Text) → All (λ x. x < n) (slice_at key m))
    → (key : Text) → All (λ x. x < n) (slice_at key (watch_loop ch m keys))
unfolding watch_loop
watch_loop-known ch n m [] h k key = k key
watch_loop-known ch n m (j ∷ keys) h k key =
    watch_loop-known ch n (append_at j ch m) keys h more key
  where
    more : (q : Text) → All (λ x. x < n) (slice_at q (append_at j ch m))
    more q = elim (Bool-cases (text_eq j q)) [
      | inl e ↦
          rw (slice_at-append_at j q ch m, e)
            (All-append (λ x. x < n) (slice_at q m) (ch ∷ []) (k q) (h, tt))
      | inr e ↦ rw (slice_at-append_at j q ch m, e) (k q)
    ]

pub watch_event-IsValid : (keys : List Text) (c : Conf) → IsValid c → IsValid (watch_event keys c).1
unfolding watch_event
watch_event-IsValid keys c v = record {
  keyed = v.keyed;
  bounded =
      All-append (λ (buf : List Event). length buf ≤ def_ch_size) c.chans ([] ∷ []) v.bounded
        (omega arith, tt);
  known = rw (length-append c.chans ([] ∷ [])) (
      watch_loop-known (length c.chans) (length c.chans + 1) c.watch_chs keys (omega arith) (λ q.
        All-lt_mono (length c.chans) (length c.chans + 1) (slice_at q c.watch_chs) (omega arith)
          (v.known q)));
}

notify-bounded :
    (ev : Event) (chs : List ℕ) (chans : List (List Event))
    → All (λ (buf : List Event). length buf ≤ def_ch_size) chans
    → All (λ (buf : List Event). length buf ≤ def_ch_size) (notify ev chs chans)
unfolding notify
notify-bounded ev [] chans h = h
notify-bounded ev (ch ∷ chs) chans h =
    notify-bounded ev chs (modify ch (offer ev) chans)
      (All-modify (λ (buf : List Event). length buf ≤ def_ch_size) ch (offer ev) chans within h)
  where
    within : (buf : List Event) → length buf ≤ def_ch_size → length (offer ev buf) ≤ def_ch_size
    within buf b = unfold offer in ground (arith, length-append buf (ev ∷ []))

publish-IsValid : (key val : Text) (c : Conf) → IsValid c → IsValid (publish key val c)
unfolding publish
publish-IsValid key val c v = record {
  keyed = insert-IsKeyed key (record { raw = val }) c.raw v.keyed;
  bounded = notify-bounded (update_of key val) (slice_at key c.watch_chs) c.chans v.bounded;
  known = rw (length-notify (update_of key val) (slice_at key c.watch_chs) c.chans) v.known;
}

pub reload_file-IsValid :
    (goos name : Text) (content : Option Text) (c : Conf)
    → IsValid c
    → IsValid (reload_file goos name content c)
unfolding reload_file
reload_file-IsValid goos name none c v = ground arith
reload_file-IsValid goos name (some val) c v = elim (Bool-cases (filter_hide_file goos name)) [
  | inl e ↦ rw e v
  | inr e ↦ rw e (elim (Bool-cases (filter_backup_file goos name)) [
    | inl f ↦ rw f v
    | inr f ↦ rw f (publish-IsValid (base_name name) val c v)
  ])
]

-- In a valid object, a new channel gets, at a change of a file that is not filtered and is read,
-- one event with the name and the new text for each time that the name is among the keys of
-- WatchEvent, up to its size, and no other event.
pub watch_event-reload_file :
    (goos name val : Text) (keys : List Text) (c : Conf)
    → ¬ Filtered goos name
    → IsValid c
    → let (ch, c') = watch_event keys c in
      get_elem? (reload_file goos name (some val) c').chans ch
      ≡ some (
          copies
            (min (occurrences (base_name name) keys) def_ch_size)
            (update_of (base_name name) val))
unfolding watch_event
watch_event-reload_file goos name val keys c h v =
    let (ch, c') = watch_event keys c in
    let asked : count (length c.chans) (slice_at (base_name name) (watch_event keys c).1.watch_chs)
        ≡ occurrences (base_name name) keys =
      omega (
        arith,
        count-slice_at-watch_loop (length c.chans) c.watch_chs keys (base_name name),
        count_fresh (length c.chans) (slice_at (base_name name) c.watch_chs)
            (v.known (base_name name)),
      ) in
    chans-reload_file goos name val (watch_event keys c).1 (length c.chans) h
    ∙ rw (get_elem?-append_self, asked) (unfold offered in refl)

taken-IsValid :
    (ch : ℕ) (ev : Event) (rest : List Event) (c : Conf)
    → IsValid c
    → get_elem? c.chans ch ≡ some (ev ∷ rest)
    → IsValid (record c { chans = modify ch (λ _. rest) c.chans })
taken-IsValid ch ev rest c v e = record {
  keyed = v.keyed;
  bounded =
      All-modify (λ (buf : List Event). length buf ≤ def_ch_size) ch (λ _. rest) c.chans
        (λ buf _. fits) v.bounded;
  known = rw (length-modify ch (λ _. rest) c.chans) v.known;
}
  where
    fits : length rest ≤ def_ch_size
    fits =
        let whole : length (ev ∷ rest) ≤ def_ch_size =
          All-get_elem? (λ (buf : List Event). length buf ≤ def_ch_size) c.chans ch (ev ∷ rest)
            v.bounded e in
        omega arith

-- What the program and its watchers do with the object.
pub data Call : Type 0 where
  watches : List Text → Call
  changes : Text → Text → Option Text → Call
  receives : ℕ → Call

unfoldable pub after_receive : Conf → Option (Event × Conf) → Conf
after_receive c none = c
after_receive c (some (ev, c')) = c'

unfoldable pub step : Conf → Call → Conf
unfolding after_receive
step c (watches keys) = (watch_event keys c).1
step c (changes goos name content) = reload_file goos name content c
step c (receives ch) = after_receive c (receive ch c)

unfoldable pub run : Conf → List Call → Conf
run c [] = c
run c (s ∷ ss) = run (step c s) ss

receive-IsValid :
    (ch : ℕ) (c : Conf) (buf : Option (List Event))
    → IsValid c
    → get_elem? c.chans ch ≡ buf
    → IsValid (after_receive c (receive ch c))
unfolding receive after_receive
receive-IsValid ch c none v e = rw (e, receive) v
receive-IsValid ch c (some []) v e = rw (e, receive) v
receive-IsValid ch c (some (ev ∷ rest)) v e = rw (e, receive) (taken-IsValid ch ev rest c v e)

pub step-IsValid : (c : Conf) (s : Call) → IsValid c → IsValid (step c s)
unfolding step
step-IsValid c (watches keys) v = watch_event-IsValid keys c v
step-IsValid c (changes goos name content) v = reload_file-IsValid goos name content c v
step-IsValid c (receives ch) v = receive-IsValid ch c (get_elem? c.chans ch) v refl

pub run_keeps : (c : Conf) (ss : List Call) → IsValid c → IsValid (run c ss)
unfolding run
run_keeps c [] v = v
run_keeps c (s ∷ ss) v = run_keeps (step c s) ss (step-IsValid c s v)

new_conf_empty :
    (path : Stat) (c : Conf) → new_conf path ≡ ok c → (c.chans ≡ []) × (c.watch_chs ≡ [])
unfolding new_conf
new_conf_empty path c e = ground arith

new_conf-IsKeyed : (path : Stat) (c : Conf) → new_conf path ≡ ok c → IsKeyed c.raw
unfolding new_conf
new_conf-IsKeyed path c e = load_dir-IsKeyed path c.raw (ground arith)

new_conf-IsValid : (path : Stat) (c : Conf) → new_conf path ≡ ok c → IsValid c
unfolding slice_at lookup
new_conf-IsValid path c e =
    let (no_chans, no_keys) = new_conf_empty path c e in
    record {
      keyed = new_conf-IsKeyed path c e;
      bounded = rw no_chans tt;
      known = λ key. rw no_keys tt;
    }

-- From an object that newConf made, after any calls of WatchEvent, file changes and receives, no
-- channel holds more events than its size, only channels that exist stand behind a name, and no
-- file stands twice in the map.
pub run_calls-IsValid :
    (path : Stat) (c : Conf) (ss : List Call) → new_conf path ≡ ok c → IsValid (run c ss)
run_calls-IsValid path c ss e = run_keeps c ss (new_conf-IsValid path c e)
