-- ===== src/Conf/Watch.antt =====
-- conf/conf.go, conf/client.go and conf/api.go: the configuration object, its event channels and
-- the monitor. A channel is its buffer, oldest event first, and is known by its position.
pub mod Notify
pub mod Subscribe
pub mod Monitor
pub mod Behind
use motor.Base.{
  ℕ, ◌+◌, Text, Dict, Bool, true, false, Option, none, some, List, [], ◌∷◌, ◌++◌, length, modify,
  get_elem?, base_name, insert, slice_at, append_at, ltb, if◌then◌else◌,
}
use motor.Base.Outcome.{Outcome}
use motor.Conf.Storage
use motor.Conf.Storage.{Value, Storage}
use motor.Conf.Files.{Stat, Result, load_dir, filter_hide_file, filter_backup_file, ok, ◌>>=◌}

abbrev pub def_ch_size : ℕ
def_ch_size = 10

pub data EventType : Type 0 where
  event_update : EventType

pub record Event : Type 0 where
  pub op : EventType
  pub key : Text
  pub val : Text

pub record Conf : Type 0 where
  pub raw : Dict Value
  pub content : Storage
  pub watch_chs : Dict (List ℕ)
  pub chans : List (List Event)

unfoldable pub new_conf : Stat → Result Conf
new_conf path = do
  cmap ← load_dir path
  ok (record { raw = cmap; content = Storage.store cmap; watch_chs = []; chans = [] })

unfoldable pub get : Conf → Text → Outcome (Option Value)
get c key = Storage.get c.content key

pub watch_loop : ℕ → Dict (List ℕ) → List Text → Dict (List ℕ)
watch_loop ch m [] = m
watch_loop ch m (key ∷ keys) = watch_loop ch (append_at key ch m) keys

-- A new channel, which is returned, behind every key.
unfoldable pub watch_event : List Text → Conf → ℕ × Conf
unfolding watch_loop
watch_event keys c =
    let ch = length c.chans in
    (ch, record c { watch_chs = watch_loop ch c.watch_chs keys; chans = c.chans ++ ([] ∷ []) })

-- A send that does not wait: a full channel drops the event.
unfoldable pub offer : Event → List Event → List Event
offer ev buf = if ltb (length buf) def_ch_size then buf ++ (ev ∷ []) else buf

unfoldable pub notify : Event → List ℕ → List (List Event) → List (List Event)
unfolding offer modify
notify ev [] chans = chans
notify ev (ch ∷ chs) chans = notify ev chs (modify ch (offer ev) chans)

publish : Text → Text → Conf → Conf
unfolding notify
publish key val c =
    let raw' = insert key (record { raw = val }) c.raw in
    record c {
      raw = raw';
      content = Storage.store raw';
      chans =
          notify (record { op = event_update; key = key; val = val }) (slice_at key c.watch_chs)
            c.chans;
    }

-- `content` is what readFile gives for `name` after the pause, `none` for an error. One step, though
-- the lock is held for the lookup of the channels only.
unfoldable pub reload_file : Text → Text → Option Text → Conf → Conf
unfolding publish
reload_file goos name content c =
    if filter_hide_file goos name
    then c
    else if filter_backup_file goos name
    then c
    else elim content [ none ↦ c | some val ↦ publish (base_name name) val c ]

-- A watcher takes the oldest event of its channel.
unfoldable pub receive : ℕ → Conf → Option (Event × Conf)
receive ch c = elim (get_elem? c.chans ch) [
  | none ↦ none
  | some buf ↦ elim buf [
    | [] ↦ none
    | ev ∷ rest ↦ some (ev, record c { chans = modify ch (λ _. rest) c.chans })
  ]
]

-- What the monitor's `select` meets.
pub data Signal : Type 0 where
  -- an fsnotify event: is the Write bit set, the file's name, what reading it gives
  fs_event : Bool → Text → Option Text → Signal
  -- a receive from the closed channel of events
  events_closed : Signal
  watcher_error : Signal
  done : Signal

-- `break` leaves the `select`, not the loop. The flag says whether the loop goes on.
unfoldable pub monitor_step : Text → Signal → Conf → Bool × Conf
monitor_step goos (fs_event true name content) c = (true, reload_file goos name content c)
monitor_step goos (fs_event false name content) c = (true, c)
monitor_step goos events_closed c = (true, c)
monitor_step goos watcher_error c = (true, c)
monitor_step goos done c = (false, c)

-- The loop over the signals that come, with the flag `still running`.
unfoldable pub monitor : Text → List Signal → Conf → Bool × Conf
unfolding monitor_step
monitor goos [] c = (true, c)
monitor goos (s ∷ ss) c =
    let (running, c') = monitor_step goos s c in
    elim running [ true ↦ monitor goos ss c' | false ↦ (false, c') ]
