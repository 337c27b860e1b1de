-- ===== src/Conf/Follow/Tests.antt =====
-- A run of the goroutine of Watch, and its theorem there.
use motor.Base.{
  Text, lit, Bool, true, ◌≡◌, refl, some, List, [], ◌∷◌, ◌++◌, arith, All, replicate, get_elem?,
  lookup, slice_at, text_eq, has_prefix, base_name, has_suffix,
}
use motor.Conf.Files.{filter_hide_file, filter_backup_file}
use motor.Conf.Storage.{store}
use motor.Conf.Watch.{Conf, def_ch_size, watch_event}
use motor.Conf.Watch.Subscribe.{IsValid, changes, watches}
use motor.Conf.Follow.{Turn, takes, calls, subscribe, follow}
use motor.Conf.Follow.Applied.{IsTurn, texts, applies, follow-applies}

abbrev conf : Conf
conf = record { raw = []; content = store []; watch_chs = []; chans = [] }

conf-IsValid : IsValid conf
unfolding slice_at lookup
conf-IsValid = record { keyed = tt; bounded = tt; known = λ key. tt }

-- A setter that keeps what it is given.
abbrev keep : Text → List Text → Bool × List Text
keep v vs = (true, vs ++ (v ∷ []))

abbrev turns : List Turn
turns =
    calls (changes (lit "linux") (lit "/etc/a.toml") (some (lit "x=1")))
    ∷ takes
    ∷ calls (changes (lit "linux") (lit "/etc/b.toml") (some (lit "y=1")))
    ∷ calls (changes (lit "linux") (lit "/etc/a.toml") (some (lit "x=2")))
    ∷ calls (watches (lit "a.toml" ∷ []))
    ∷ []

turns-IsTurn : All (IsTurn 0) turns
turns-IsTurn = ground arith

two_texts : texts (lit "a.toml") turns ≡ lit "x=1" ∷ lit "x=2" ∷ []
unfolding filter_hide_file text_eq has_prefix base_name filter_backup_file has_suffix
two_texts = refl

follow-applies_example :
    let (ch, c') = subscribe keep (lit "a.toml") conf in
    let s =
      follow keep ch (record { conf = c'; setter = [] }) (turns ++ replicate def_ch_size takes) in
    (s.setter ≡ applies keep (texts (lit "a.toml") turns) [])
    × (get_elem? s.conf.chans ch ≡ some [])
unfolding subscribe watch_event
follow-applies_example =
    follow-applies keep (lit "a.toml") conf [] turns conf-IsValid turns-IsTurn
      (rw two_texts (omega arith))
