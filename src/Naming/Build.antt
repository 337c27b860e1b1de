-- ===== src/Naming/Build.antt =====
-- getConf, create, singleton and Build of naming/etcd.go. The TOML library, tlsInfo.ClientConfig and
-- clientv3.New are arguments.
pub mod Made
mod Tests
use motor.Base.{
  ℕ, Text, lit, Bool, true, false, Option, none, some, List, [], ◌∷◌, seconds, if◌then◌else◌,
}
use motor.Base.Outcome.{Outcome, returned, panicked, ◌>>=◌}
use motor.Conf.Toml.{Codec}
use motor.Conf.Watch.{Conf}
use motor.Conf.Settings.{section}
use motor.Naming.Types.{EtcdConf, EtcdBuilder}
use motor.Naming.Builder.{new_builder}

-- clientv3.Config; its DialOptions are a constant.
pub record Config (T : Type 0) : Type 0 where
  pub endpoints : List Text
  pub dial_timeout : ℕ
  pub username : Text
  pub password : Text
  pub tls : Option T

-- `client_config` is ClientConfig of the certificate, the key and the authority; `none` is an error.
pub record Library (T C : Type 0) : Type 0 where
  pub decode : Text → Option EtcdConf
  pub client_config : Text → Text → Text → Option T
  pub new_client : Config T → Option C

no_addrs : Option EtcdConf → Option EtcdConf
no_addrs none = none
no_addrs (some cfg) = elim cfg.addrs [ [] ↦ none | addr ∷ addrs ↦ some cfg ]

module _ {T C : Type 0} (lib : Library T C) where
  base_config : EtcdConf → Config T
  base_config econf = record {
    endpoints = econf.addrs;
    dial_timeout = seconds econf.dial_timeout;
    username = [];
    password = [];
    tls = none;
  }

  with_tls : Config T → Option T → Option (Config T)
  with_tls c none = none
  with_tls c (some t) = some (record c { tls = some t })

  -- The credentials: basic auth goes before TLS.
  unfoldable pub config_of : EtcdConf → Option (Config T)
  unfolding base_config with_tls
  config_of econf =
      let c = base_config econf in
      if econf.basic_auth
      then some (record c { username = econf.username; password = econf.password })
      else if econf.tls_enable
      then with_tls c (lib.client_config econf.server_cert econf.server_key econf.cacert)
      else some c

  -- A builder with its client.
  built : EtcdConf → Option C → Option (EtcdBuilder × C)
  built econf none = none
  built econf (some client) = some (new_builder econf, client)

  unfoldable pub create_from : Option EtcdConf → Option (EtcdBuilder × C)
  unfolding config_of built
  create_from none = none
  create_from (some econf) = elim (config_of econf) [
    | none ↦ none
    | some c ↦ built econf (lib.new_client c)
  ]

  -- getConf: an error for no document, for settings that do not decode, and for no address.
  unfoldable pub get_conf : {V : Type 0} → Codec V → Option Conf → Outcome (Option EtcdConf)
  unfolding section no_addrs
  get_conf codec g = do
    cfg ← section codec g (lit "naming.toml") (lit "Etcd") lib.decode
    returned (no_addrs cfg)

  -- `none` is nil, after any error.
  unfoldable pub create : {V : Type 0} → Codec V → Option Conf → Outcome (Option (EtcdBuilder × C))
  unfolding get_conf create_from
  create codec g = do econf ← get_conf codec g; returned (create_from econf)

-- `_once` and `_builder`
pub record Singleton (B : Type 0) : Type 0 where
  pub done : Bool
  pub builder : Option B

-- _once.Do runs its function once, also where that panics; `made` is what `create` comes to now.
first_build : {B : Type 0} → Outcome (Option B) → Outcome (Option B) × Singleton B
first_build panicked = (panicked, record { done = true; builder = none })
first_build (returned b) = (returned b, record { done = true; builder = b })

-- Build, which is singleton()
unfoldable pub build :
    {B : Type 0} → Outcome (Option B) → Singleton B → Outcome (Option B) × Singleton B
unfolding first_build
build made s = if s.done then (returned s.builder, s) else first_build made
