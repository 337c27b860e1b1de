-- ===== src/Conf/Reload/Synced.antt =====
-- What holds of the pool, the channel and the file after every turn of a loop that follows the file.
use motor.Base.{
  ℕ, zero, suc, ◌≤◌, ◌<◌, Text, true, false, ◌≡◌, ◌≢◌, ◌⊎◌, inl, inr, refl, sym, subst, Option,
  none, some, List, [], ◌∷◌, arith, All, length, get_elem?, get_elem?-modify, get_elem?_in_range,
  All-get_elem?, Bool-cases,
}
use motor.Base.Outcome.{Outcome, returned, panicked, ◌>>=◌}
use motor.Conf.Watch.{Event, Conf, def_ch_size, get, receive}
use motor.Conf.Watch.Subscribe.{Call, receives, step, step-IsValid, after_receive, IsValid}
use motor.Conf.Watch.Behind.{Behind, posted, step-Behind}
use motor.Conf.Reload.{
  System, Turn, takes, reads, calls, read_file, reloaded, take, taken, read, turn, follow,
}
use motor.Conf.Reload.Fill.{step-Filled}
use motor.Conf.Reload.Found.{IsApart, IsStored, step-IsStored, step-get, IsPresent, step-IsPresent}
use motor.Conf.Settings.{unmarshal_toml}
use motor.Conf.Storage.{raw-some}

zero-cases : (n : ℕ) → (n ≡ 0) ⊎ (0 < n)
zero-cases zero = inl refl
zero-cases (suc n) = inr (omega arith)

module _ {A P : Type 0} (file : Text) (decode : Text → Option A) (load : A → P → P) where
  -- The pool is a load of what the file decodes to, or the file does not decode; nothing panicked.
  abbrev pub IsLoad : Outcome (Option A) → Outcome P → Type 0
  IsLoad panicked pool = ⊥
  IsLoad (returned none) pool = (p : P) × (pool ≡ returned p)
  IsLoad (returned (some cfg)) pool = (p : P) × (pool ≡ returned (load cfg p))

  abbrev pub IsCurrent : Conf → Outcome P → Type 0
  IsCurrent c pool = IsLoad (read_file file decode load c) pool

  reads_value :
      (c : Conf)
      → IsPresent file c
      → (cfg : Option A) × (read_file file decode load c ≡ returned cfg)
  unfolding read_file unmarshal_toml
  reads_value c (v, found) = (decode v.raw, rw (found, read_file, raw-some v) refl)

  reloaded-IsLoad :
      (cfg : Option A) (p : P)
      → IsLoad (returned cfg) (reloaded file decode load (returned cfg) (returned p))
  unfolding reloaded
  reloaded-IsLoad none p = (p, refl)
  reloaded-IsLoad (some cfg) p = (p, refl)

  IsLoad-returned :
      (cfg : Outcome (Option A)) (pool : Outcome P)
      → IsLoad cfg pool
      → (p : P) × (pool ≡ returned p)
  IsLoad-returned panicked pool h = absurd h
  IsLoad-returned (returned none) pool h = h
  IsLoad-returned (returned (some cfg)) pool (p, e) = (load cfg p, e)

  -- The loop that waits with its channel empty has loaded what the file holds.
  pub record IsSynced (ch : ℕ) (s : System P) : Type 0 where
    pub valid : IsValid s.conf
    pub behind : Behind ch file s.conf.watch_chs
    pub stored : IsStored s.conf
    pub present : IsPresent file s.conf
    pub runs : (p : P) × (s.pool ≡ returned p)
    pub buf : List Event
    pub held : get_elem? s.conf.chans ch ≡ some buf
    pub settled : (s.woken ≡ true) ⊎ ((0 < length buf) ⊎ IsCurrent s.conf s.pool)

  pub get-IsCurrent :
      (c c' : Conf) (pool : Outcome P)
      → get c' file ≡ get c file
      → IsCurrent c pool
      → IsCurrent c' pool
  unfolding read_file
  get-IsCurrent c c' pool same h =
      subst (λ v. IsLoad (v >>= unmarshal_toml decode) pool) (sym same) h

  calls-IsSynced :
      (ch : ℕ) (s : System P) (c : Call)
      → c ≢ receives ch
      → IsApart file c
      → IsSynced ch s
      → IsSynced ch (turn file decode load ch s (calls c))
  unfolding turn
  calls-IsSynced ch s c other apart k =
      let in_range = get_elem?_in_range s.conf.chans ch k.buf k.held in
      let fits =
        All-get_elem? (λ (buf : List Event). length buf ≤ def_ch_size) s.conf.chans ch k.buf
          k.valid.bounded k.held in
      let (buf', held', more, own) =
        step-Filled ch file s.conf c k.buf k.behind other k.held fits in
      record {
        valid = step-IsValid s.conf c k.valid;
        behind = step-Behind ch file s.conf c in_range k.behind;
        stored = step-IsStored s.conf c k.stored;
        present = step-IsPresent file s.conf c k.stored apart k.present;
        runs = k.runs;
        buf = buf';
        held = held';
        settled = elim k.settled [
          | inl woken ↦ inl woken
          | inr (inl waits) ↦ inr (inl (omega (arith, waits, more)))
          | inr (inr current) ↦ elim (zero-cases (length (posted file c))) [
            | inl silent ↦ inr (
                inr (
                  get-IsCurrent s.conf (step s.conf c) s.pool
                    (step-get file s.conf c k.stored apart silent) current))
            | inr sends ↦ inr (inl (omega (arith, sends, own)))
          ]
        ];
      }

  pub read-IsSynced :
      (ch : ℕ) (s : System P) → IsSynced ch s → IsSynced ch (read file decode load s)
  unfolding read
  read-IsSynced ch s k = elim (Bool-cases s.woken) [
    | inr e ↦
        let q : read file decode load s ≡ s = rw (e, read) refl in subst (IsSynced ch) (sym q) k
    | inl e ↦
        let pool = reloaded file decode load (read_file file decode load s.conf) s.pool in
        let q : read file decode load s ≡ record s { woken = false; pool = pool } =
          rw (e, read) refl in
        let (p, running) = k.runs in
        let (cfg, value) = reads_value s.conf k.present in
        let current : IsCurrent s.conf pool =
          subst (λ o. IsLoad o (reloaded file decode load o s.pool)) (sym value)
            (subst (λ o. IsLoad (returned cfg) (reloaded file decode load (returned cfg) o))
              (sym running) (reloaded-IsLoad cfg p)) in
        subst (IsSynced ch) (sym q) (record {
          valid = k.valid;
          behind = k.behind;
          stored = k.stored;
          present = k.present;
          runs = IsLoad-returned (read_file file decode load s.conf) pool current;
          buf = k.buf;
          held = k.held;
          settled = inr (inr current);
        })
  ]

  -- A loop that waits takes the oldest event.
  pub take-first :
      (ch : ℕ) (s : System P) (x : Event) (rest : List Event)
      → s.woken ≡ false
      → get_elem? s.conf.chans ch ≡ some (x ∷ rest)
      → take file decode load ch s ≡ record s { conf = step s.conf (receives ch); woken = true }
  unfolding take taken step after_receive receive
  take-first ch s x rest w held = rw (w, held, take, receive) refl

  pub rest-held :
      (ch : ℕ) (c : Conf) (x : Event) (rest : List Event)
      → get_elem? c.chans ch ≡ some (x ∷ rest)
      → get_elem? (step c (receives ch)).chans ch ≡ some rest
  unfolding step after_receive receive
  rest-held ch c x rest held =
      rw (held, receive) (ground (arith, get_elem?-modify ch ch (λ _. rest) c.chans, held))

  pub take-empty :
      (ch : ℕ) (s : System P) → get_elem? s.conf.chans ch ≡ some [] → take file decode load ch s ≡ s
  unfolding take taken receive
  take-empty ch s held = elim (Bool-cases s.woken) [
    | inl w ↦ rw (w, take) refl
    | inr w ↦ rw (w, held, take, receive) refl
  ]

  first-IsSynced :
      (ch : ℕ) (s : System P) (x : Event) (rest : List Event)
      → IsApart file (receives ch)
      → get_elem? s.conf.chans ch ≡ some (x ∷ rest)
      → IsSynced ch s
      → IsSynced ch (record s { conf = step s.conf (receives ch); woken = true })
  first-IsSynced ch s x rest apart held k = record {
    valid = step-IsValid s.conf (receives ch) k.valid;
    behind =
        step-Behind ch file s.conf (receives ch) (get_elem?_in_range s.conf.chans ch k.buf k.held)
          k.behind;
    stored = step-IsStored s.conf (receives ch) k.stored;
    present = step-IsPresent file s.conf (receives ch) k.stored apart k.present;
    runs = k.runs;
    buf = rest;
    held = rest-held ch s.conf x rest held;
    settled = inl refl;
  }

  take-IsSynced :
      (ch : ℕ) (s : System P) (buf : List Event)
      → get_elem? s.conf.chans ch ≡ some buf
      → IsSynced ch s
      → IsSynced ch (take file decode load ch s)
  unfolding take
  take-IsSynced ch s [] held k = subst (IsSynced ch) (sym (take-empty ch s held)) k
  take-IsSynced ch s (x ∷ rest) held k = elim (Bool-cases s.woken) [
    | inl w ↦
        let q : take file decode load ch s ≡ s = rw (w, take) refl in subst (IsSynced ch) (sym q) k
    | inr w ↦
        subst (IsSynced ch) (sym (take-first ch s x rest w held))
          (first-IsSynced ch s x rest tt held k)
  ]

  -- Other goroutines receive from other channels, and change no file whose name differs from it in
  -- case only.
  abbrev pub IsTurn : ℕ → Turn → Type 0
  IsTurn ch takes = Unit
  IsTurn ch reads = Unit
  IsTurn ch (calls c) = (c ≢ receives ch) × IsApart file c

  turn-IsSynced :
      (ch : ℕ) (s : System P) (t : Turn)
      → IsTurn ch t
      → IsSynced ch s
      → IsSynced ch (turn file decode load ch s t)
  unfolding turn
  turn-IsSynced ch s takes i k = take-IsSynced ch s k.buf k.held k
  turn-IsSynced ch s reads i k = read-IsSynced ch s k
  turn-IsSynced ch s (calls c) i k = calls-IsSynced ch s c i.0 i.1 k

  pub follow-IsSynced :
      (ch : ℕ) (s : System P) (ts : List Turn)
      → All (IsTurn ch) ts
      → IsSynced ch s
      → IsSynced ch (follow file decode load ch s ts)
  unfolding follow
  follow-IsSynced ch s [] i k = k
  follow-IsSynced ch s (t ∷ ts) i k =
      follow-IsSynced ch (turn file decode load ch s t) ts i.1 (turn-IsSynced ch s t i.0 k)
