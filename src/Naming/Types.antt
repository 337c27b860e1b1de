-- ===== src/Naming/Types.antt =====
-- naming/interface.go, and the state types of naming/etcd.go.
-- A *Resolve is its position in `resolves`; a channel of size 1 is the number of tokens in it.
use motor.Base.{ℕ, Text, Dict, Bool, Option, none, List}

-- The interface{} of InstanceAttr: nil, a string, or a value of another type by an opaque number.
pub data AttrData : Type 0 where
  nil : AttrData
  string : Text → AttrData
  other : ℕ → AttrData

pub record Instance : Type 0 where
  pub name : Text
  pub idc : Text
  pub pub_env : Text
  pub attr : AttrData

-- What UnmarshalJSON of InstanceAttr stores: the raw bytes.
unfoldable pub unmarshal_attr : Text → AttrData
unmarshal_attr b = string b

abbrev pub InstancesInfo : Type 0
InstancesInfo = Dict (List Instance)

pub record EtcdConf : Type 0 where
  pub lease_ttl : ℕ
  pub dial_timeout : ℕ
  pub sn_prefix : Text
  pub addrs : List Text
  pub basic_auth : Bool
  pub username : Text
  pub password : Text
  pub tls_enable : Bool
  pub cacert : Text
  pub server_cert : Text
  pub server_key : Text

-- `once` says that the watch has been started; `ins` is `none` until the first store.
pub record ServerInfo : Type 0 where
  pub sn : Text
  pub resolver : List ℕ
  pub ins : Option InstancesInfo
  pub once : Bool

pub record Resolve : Type 0 where
  pub sn : Text
  pub event : ℕ

pub record EtcdBuilder : Type 0 where
  pub conf : EtcdConf
  pub servers : Dict ServerInfo
  pub resolves : List Resolve
  pub registry : Dict (Unit {0})
  -- the services whose `watch` has been started, newest first
  pub watches : List Text
  -- EtcdBuilder.ctx was cancelled, by Close
  pub closed : Bool

pub data Error : Type 0 where
  empty_sn empty_argument duplicate_register grant_failed put_failed delete_failed : Error
  get_failed bad_instance : Error

pub data Result {ℓ} (A : Type ℓ) : Type ℓ where
  ok : A → Result A
  err : Error → Result A

attr_as {ℓ} : {A : Type ℓ} → (Text → Option A) → AttrData → Option A
attr_as decode nil = none
attr_as decode (string s) = decode s
attr_as decode (other n) = none

-- Instance.StructuredAttr: an error where the attribute is no string. `decode` takes its "data"
-- field apart (jsoniter, json.Unmarshal) into the caller's type.
unfoldable pub structured_attr {ℓ} : {A : Type ℓ} → (Text → Option A) → Instance → Option A
unfolding attr_as
structured_attr decode i = attr_as decode i.attr
