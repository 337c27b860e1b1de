-- ===== src/Naming/Build/Made.antt =====
-- What Build of naming/etcd.go makes, and what later calls of it give.
use motor.Base.{
  Text, lit, true, false, ◌≡◌, ◌≢◌, refl, sym, ap, ◌⊎◌, inl, inr, Option, none, some, List, [], ◌∷◌,
  arith, map, Bool-cases, Option-cases,
}
use motor.Base.Outcome.{Outcome, returned, panicked, ◌>>=◌}
use motor.Conf.Toml.{Codec}
use motor.Conf.Watch.{Conf}
use motor.Conf.Settings.{section}
use motor.Naming.Types.{EtcdConf, EtcdBuilder}
use motor.Naming.Builder.{new_builder}
use motor.Naming.Build.{
  Config, Library, base_config, with_tls, config_of, built, create_from, no_addrs, get_conf, create,
  Singleton, build, first_build,
}

-- The user and the password with basic auth, and then no TLS; else TLS of the files where it is
-- enabled.
abbrev pub Authenticates : {T C : Type 0} → Library T C → EtcdConf → Config T → Type 0
Authenticates lib econf c =
    (econf.basic_auth ≡ true
      → (c.username ≡ econf.username) × (c.password ≡ econf.password) × (c.tls ≡ none))
    × (econf.basic_auth ≡ false
        → (c.username ≡ [])
          × (c.password ≡ [])
          × (econf.tls_enable ≡ true
              → (c.tls ≡ lib.client_config econf.server_cert econf.server_key econf.cacert)
                × (c.tls ≢ none))
          × (econf.tls_enable ≡ false → c.tls ≡ none))

list_cases : (xs : List Text) → (xs ≡ []) ⊎ ((a : Text) × (rest : List Text) × (xs ≡ a ∷ rest))
list_cases [] = inl refl
list_cases (a ∷ xs) = inr (a, xs, refl)

module _ {T C : Type 0} (lib : Library T C) where
  -- A client of the addresses in the settings, with their credentials.
  abbrev pub Connects : EtcdConf → C → Type 0
  Connects econf client =
      (econf.addrs ≢ [])
      × ((c : Config T) × (lib.new_client c ≡ some client)
          × (c.endpoints ≡ econf.addrs)
          × Authenticates lib econf c)

  config_of-Authenticates :
      (econf : EtcdConf) (c : Config T)
      → config_of lib econf ≡ some c
      → (c.endpoints ≡ econf.addrs) × Authenticates lib econf c
  unfolding config_of base_config with_tls
  config_of-Authenticates econf c e =
      let tls = lib.client_config econf.server_cert econf.server_key econf.cacert in
      elim (Bool-cases econf.basic_auth) [
        | inl b ↦ ground (arith, b)
        | inr b ↦ elim (Bool-cases econf.tls_enable) [
          | inr n ↦ ground (arith, b, n)
          | inl y ↦ elim (Option-cases tls) [
            | inl k ↦ ground (arith, b, y, k)
            | inr (t, k) ↦ ground (arith, b, y, k)
          ]
        ]
      ]

  built-new :
      (econf : EtcdConf) (o : Option C) (e : EtcdBuilder) (client : C)
      → built lib econf o ≡ some (e, client)
      → (e ≡ new_builder econf) × (o ≡ some client)
  unfolding built
  built-new econf none e client h = cc
  built-new econf (some x) e client h = (
    ap (λ (o : Option (EtcdBuilder × C)). elim o [ none ↦ e | some p ↦ p.0 ]) (sym h),
    ap (λ (o : Option (EtcdBuilder × C)). elim o [ none ↦ none | some p ↦ some p.1 ]) h,
  )

  create_from-Connects :
      (econf : EtcdConf) (e : EtcdBuilder) (client : C)
      → econf.addrs ≢ []
      → create_from lib (some econf) ≡ some (e, client)
      → (e ≡ new_builder econf) × Connects econf client
  unfolding create_from
  create_from-Connects econf e client n h = elim (Option-cases (config_of lib econf)) [
    | inl k ↦ absurd (ground (arith, k, h))
    | inr (c, k) ↦
        let made = built-new econf (lib.new_client c) e client (ground (arith, k, h)) in
        let (ends, auth) = config_of-Authenticates econf c k in
        (made.0, (n, (c, made.1, ends, auth)))
  ]

  addressed-Connects :
      (econf : EtcdConf) (e : EtcdBuilder) (client : C)
      → create_from lib (no_addrs (some econf)) ≡ some (e, client)
      → (e ≡ new_builder econf) × Connects econf client
  unfolding no_addrs create_from
  addressed-Connects econf e client h = elim (list_cases econf.addrs) [
    | inl k ↦ absurd (ground (arith, k, h))
    | inr (a, rest, k) ↦
        create_from-Connects econf e client (λ q. cc (k, q))
          (unfold create_from in ground (arith, k, h))
  ]

  conf_of-Connects :
      (o : Outcome (Option EtcdConf)) (e : EtcdBuilder) (client : C)
      → (do econf ← (do cfg ← o; returned (no_addrs cfg)); returned (create_from lib econf))
        ≡ returned (some (e, client))
      → (econf : EtcdConf) × (o ≡ returned (some econf))
        × (e ≡ new_builder econf)
        × Connects econf client
  conf_of-Connects panicked e client h = cc
  conf_of-Connects (returned none) e client h = unfold no_addrs create_from in cc
  conf_of-Connects (returned (some econf)) e client h =
      let same =
        ap (λ (x : Outcome (Option (EtcdBuilder × C))). elim x [ panicked ↦ none | returned y ↦ y ])
          h in
      let (fresh, connects) = addressed-Connects econf e client same in
      (econf, refl, fresh, connects)

  -- A builder that create makes is new and has the settings of the section `Etcd` of naming.toml,
  -- which have an address; and its client is that of these addresses with the user and the
  -- password where basic auth is set, whatever is set for TLS, and else with TLS of the three
  -- files where that is enabled.
  pub create-Connects :
      {V : Type 0} (codec : Codec V) (g : Option Conf) (e : EtcdBuilder) (client : C)
      → create lib codec g ≡ returned (some (e, client))
      → (econf : EtcdConf) × (section codec g (lit "naming.toml") (lit "Etcd") lib.decode
          ≡ returned (some econf))
        × (e ≡ new_builder econf)
        × Connects econf client
  unfolding create get_conf
  create-Connects codec g e client h =
      conf_of-Connects (section codec g (lit "naming.toml") (lit "Etcd") lib.decode) e client h

module _ {B : Type 0} where
  -- Calls of Build, one after the other; each is given what `create` would come to at its time.
  abbrev pub builds : Singleton B → List (Outcome (Option B)) → List (Outcome (Option B))
  builds s [] = []
  builds s (made ∷ mades) = let (b, s') = build made s in b ∷ builds s' mades

  -- What `_builder` is after a first call.
  abbrev pub kept : Outcome (Option B) → Option B
  kept panicked = none
  kept (returned b) = b

  builds-done :
      (b : Option B) (mades : List (Outcome (Option B)))
      → builds (record { done = true; builder = b }) mades ≡ map (λ made. returned b) mades
  unfolding build
  builds-done b [] = refl
  builds-done b (made ∷ mades) = ap (λ l. returned b ∷ l) (builds-done b mades)

  -- The first call of Build decides: every later one gives the builder that it made, and makes
  -- none; where the first failed or panicked they give nil, though `create` would succeed by then.
  builds-first :
      (made : Outcome (Option B)) (mades : List (Outcome (Option B)))
      → builds (record { done = false; builder = none }) (made ∷ mades)
        ≡ made ∷ map (λ later. returned (kept made)) mades
  unfolding build first_build
  builds-first panicked mades = ap (λ l. panicked ∷ l) (builds-done none mades)
  builds-first (returned b) mades = ap (λ l. returned b ∷ l) (builds-done b mades)
