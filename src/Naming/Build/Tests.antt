-- ===== src/Naming/Build/Tests.antt =====
-- Runs of Build and create, and their theorems at concrete inputs.
use motor.Base.{
  Text, lit, ◌≡◌, refl, true, Option, none, some, [], ◌∷◌, lookup, insert, text_eq, to_lower,
  seconds,
}
use motor.Base.Outcome.{returned}
use motor.Conf.Toml.{Codec, map_value, unmarshal_text, text_of}
use motor.Conf.Watch
use motor.Conf.Watch.{Conf}
use motor.Conf.Storage
use motor.Conf.Storage.{store}
use motor.Conf.Settings
use motor.Conf.Settings.{section}
use motor.Naming.Types.{EtcdConf}
use motor.Naming.Builder.{new_builder}
use motor.Naming.Build.{Config, Library, create}
use motor.Naming.Build.Made.{Connects, create-Connects}

-- Basic auth and TLS are both set.
abbrev econf : EtcdConf
econf = record {
  lease_ttl = 30;
  dial_timeout = 5;
  sn_prefix = lit "/sn";
  addrs = lit "127.0.0.1:2379" ∷ [];
  basic_auth = true;
  username = lit "motor";
  password = lit "secret";
  tls_enable = true;
  cacert = lit "ca.pem";
  server_cert = lit "cert.pem";
  server_key = lit "key.pem";
}

-- A document has one table, its own text, under `etcd`.
abbrev codec : Codec Text
codec = record {
  unmarshal = λ text. some ((lit "etcd", map_value text) ∷ []);
  encode_map = λ v. some v;
  encode_slice = λ k v. none;
  format_bool = λ v. v;
  format_int = λ v. v;
  format_float = λ v. v;
}

abbrev g : Option Conf
g = some (record {
  raw = [];
  content = store ((lit "naming.toml", record { raw = lit "x" }) ∷ []);
  watch_chs = [];
  chans = [];
})

-- A client is known by its configuration.
abbrev lib : Library Text (Config Text)
lib = record {
  decode = λ text. some econf;
  client_config = λ cert key ca. some cert;
  new_client = λ c. some c;
}

abbrev client : Config Text
client = record {
  endpoints = lit "127.0.0.1:2379" ∷ [];
  dial_timeout = 5000000000;
  username = lit "motor";
  password = lit "secret";
  tls = none;
}

create_basic : create lib codec g ≡ returned (some (new_builder econf, client))
unfolding create Settings.get Watch.get Storage.get Storage.load store Storage.raw lookup insert
    text_eq Storage.key_name to_lower unmarshal_text text_of seconds
create_basic = refl

create-Connects_example :
    (cfg : EtcdConf) × (section codec g (lit "naming.toml") (lit "Etcd") lib.decode
      ≡ returned (some cfg))
    × (new_builder econf ≡ new_builder cfg)
    × Connects lib cfg client
create-Connects_example = create-Connects lib codec g (new_builder econf) client create_basic
