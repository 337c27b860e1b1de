-- ===== src/Conf/Reload/Found.antt =====
-- What Get finds after a call of another goroutine.
use motor.Base.{
  ℕ, Text, ◌≡◌, ◌≢◌, ◌⊎◌, inl, inr, refl, sym, ap, subst, ◌∙◌, Option, none, some, List, [], ◌∷◌,
  arith, length, get_elem?, base_name, text_eq_iff, Bool-cases,
}
use motor.Base.Outcome.{returned}
use motor.Conf.Storage
use motor.Conf.Storage.Changed.{get-store_other, get-store_own}
use motor.Conf.Storage.{key_name}
use motor.Conf.Watch.{Event, Conf, get, watch_event, receive}
use motor.Conf.Files.{filter_hide_file, filter_backup_file}
use motor.Conf.Watch.Monitor.{reload_file-content, reload_file-raw}
use motor.Conf.Watch.Notify.{Filtered, reload_file-ignored}
use motor.Conf.Watch.Subscribe.{Call, watches, changes, receives, step, run, after_receive}
use motor.Conf.Watch.Behind.{posted}

-- A filter takes the name, or none does.
pub Filtered-cases : (goos name : Text) → Filtered goos name ⊎ (¬ Filtered goos name)
Filtered-cases goos name = elim (Bool-cases (filter_hide_file goos name)) [
  | inl hide ↦ inl (inl hide)
  | inr show ↦ elim (Bool-cases (filter_backup_file goos name)) [
    | inl backup ↦ inl (inr backup)
    | inr plain ↦ inr (λ f. elim f [ inl p ↦ cc (p, show) | inr p ↦ cc (p, plain) ])
  ]
]

posted-own :
    (key goos name val : Text)
    → ¬ Filtered goos name
    → base_name name ≡ key
    → length (posted key (changes goos name (some val))) ≡ 1
posted-own key goos name val f same = elim (Bool-cases (filter_hide_file goos name)) [
  | inl hide ↦ absurd (f (inl hide))
  | inr show ↦ elim (Bool-cases (filter_backup_file goos name)) [
    | inl backup ↦ absurd (f (inr backup))
    | inr plain ↦ rw (show, plain, (text_eq_iff (base_name name) key).1 same) refl
  ]
]

-- A change is of the file itself, or of one whose name is another in every case.
abbrev pub IsApart : Text → Call → Type 0
IsApart key (watches keys) = Unit
IsApart key (receives ch) = Unit
IsApart key (changes goos name content) =
    (base_name name ≡ key) ⊎ (key_name (base_name name) ≢ key_name key)

-- The storage is that of the map.
abbrev pub IsStored : Conf → Type 0
IsStored c = c.content ≡ Storage.store c.raw

receive-IsStored :
    (ch : ℕ) (c : Conf) (o : Option (List Event))
    → get_elem? c.chans ch ≡ o
    → ((after_receive c (receive ch c)).content ≡ c.content)
      × ((after_receive c (receive ch c)).raw ≡ c.raw)
unfolding after_receive receive
receive-IsStored ch c none e = rw (e, receive) (refl, refl)
receive-IsStored ch c (some []) e = rw (e, receive) (refl, refl)
receive-IsStored ch c (some (x ∷ rest)) e = rw (e, receive) (refl, refl)

pub step-IsStored : (c : Conf) (s : Call) → IsStored c → IsStored (step c s)
unfolding step watch_event
step-IsStored c (watches keys) h = h
step-IsStored c (receives ch) h =
    let (content, raw) = receive-IsStored ch c (get_elem? c.chans ch) refl in
    content ∙ h ∙ ap Storage.store (sym raw)
step-IsStored c (changes goos name none) h =
    subst IsStored (sym (reload_file-ignored goos name none c (inr refl))) h
step-IsStored c (changes goos name (some val)) h = elim (Filtered-cases goos name) [
  | inl f ↦ subst IsStored (sym (reload_file-ignored goos name (some val) c (inl f))) h
  | inr f ↦
      reload_file-content goos name val c f
      ∙ ap Storage.store (sym (reload_file-raw goos name val c f))
]

pub run-IsStored : (c : Conf) (ss : List Call) → IsStored c → IsStored (run c ss)
unfolding run
run-IsStored c [] h = h
run-IsStored c (s ∷ ss) h = run-IsStored (step c s) ss (step-IsStored c s h)

-- A call that sends no text under the name leaves what Get finds under it.
pub step-get :
    (key : Text) (c : Conf) (s : Call)
    → IsStored c
    → IsApart key s
    → length (posted key s) ≡ 0
    → get (step c s) key ≡ get c key
unfolding get step watch_event
step-get key c (watches keys) h apart silent = refl
step-get key c (receives ch) h apart silent =
    ap (λ x. Storage.get x key) (receive-IsStored ch c (get_elem? c.chans ch) refl).0
step-get key c (changes goos name none) h apart silent =
    ap (λ (x : Conf). Storage.get x.content key) (reload_file-ignored goos name none c (inr refl))
step-get key c (changes goos name (some val)) h apart silent = elim (Filtered-cases goos name) [
  | inl f ↦
      ap (λ (x : Conf). Storage.get x.content key)
        (reload_file-ignored goos name (some val) c (inl f))
  | inr f ↦ elim apart [
    | inl same ↦ absurd (ground (arith, posted-own key goos name val f same, silent))
    | inr other ↦
        ap (λ x. Storage.get x key) (reload_file-content goos name val c f)
        ∙ get-store_other (base_name name) (record { raw = val }) c.raw key other
        ∙ ap (λ x. Storage.get x key) (sym h)
  ]
]

-- Get finds a value under the name.
abbrev pub IsPresent : Text → Conf → Type 0
IsPresent key c = (v : Storage.Value) × (get c key ≡ returned (some v))

pub step-IsPresent :
    (key : Text) (c : Conf) (s : Call)
    → IsStored c
    → IsApart key s
    → IsPresent key c
    → IsPresent key (step c s)
unfolding get step watch_event
step-IsPresent key c (watches keys) h apart present = present
step-IsPresent key c (receives ch) h apart (v, found) =
    (v, step-get key c (receives ch) h apart refl ∙ found)
step-IsPresent key c (changes goos name none) h apart (v, found) =
    (v, step-get key c (changes goos name none) h apart refl ∙ found)
step-IsPresent key c (changes goos name (some val)) h apart (v, found) =
    elim (Filtered-cases goos name) [
      | inl f ↦
          subst (IsPresent key) (sym (reload_file-ignored goos name (some val) c (inl f)))
            (v, found)
      | inr f ↦ elim apart [
        | inl same ↦
            let (w, own) =
              get-store_own (base_name name) (record { raw = val }) c.raw key (ap key_name same) in
            (w, ap (λ x. Storage.get x key) (reload_file-content goos name val c f) ∙ own)
        | inr other ↦ (
          v,
          ap (λ x. Storage.get x key) (reload_file-content goos name val c f)
              ∙ get-store_other (base_name name) (record { raw = val }) c.raw key other
              ∙ ap (λ x. Storage.get x key) (sym h)
              ∙ found,
        )
      ]
    ]
