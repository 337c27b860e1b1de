-- ===== src/Naming/Key.antt =====
-- The etcd keys of naming/etcd.go.
use motor.Base.{
  Text, lit, slash, ◌≡◌, refl, true, List, [], ◌∷◌, ◌++◌, has_prefix, has_suffix, trim_right,
  has_prefix-trim_right, trim_right_idem, if◌then◌else◌,
}
use motor.Naming.Types.{EtcdConf, Instance}
use mathlib.Core.List.{append_assoc}

key_prefix : EtcdConf → Text
key_prefix conf =
    if has_suffix conf.sn_prefix (lit "/") then conf.sn_prefix else conf.sn_prefix ++ lit "/"

write_args : List Text → Text
write_args [] = []
write_args (arg ∷ args) = arg ++ (slash ∷ write_args args)

-- The prefix with a slash, each argument with a slash behind it, and no slash at the end.
unfoldable pub key : EtcdConf → List Text → Text
unfolding key_prefix write_args
key conf args = trim_right slash (key_prefix conf ++ write_args args)

-- The key that an instance is registered under.
abbrev pub instance_key : EtcdConf → Instance → Text
instance_key conf i = key conf (i.name ∷ i.idc ∷ i.pub_env ∷ [])

-- The key that a service is looked up by.
abbrev pub service_key : EtcdConf → Text → Text
service_key conf sn = key conf (sn ∷ [])

write_args-append : (xs ys : List Text) → write_args (xs ++ ys) ≡ write_args xs ++ write_args ys
unfolding write_args
write_args-append [] ys = refl
write_args-append (x ∷ xs) ys = simp (write_args-append xs ys, append_assoc)

-- A key of more arguments begins with the key of the first of them, so what registers under a name
-- is in the range that the name is looked up by.
key-append_has_prefix :
    (conf : EtcdConf) (xs ys : List Text) → has_prefix (key conf (xs ++ ys)) (key conf xs) ≡ true
unfolding key
key-append_has_prefix conf xs ys =
    rw (write_args-append, ← append_assoc)
      (has_prefix-trim_right slash (key_prefix conf ++ write_args xs) (write_args ys))

-- A key ends with no slash.
pub key-trimmed :
    (conf : EtcdConf) (args : List Text) → trim_right slash (key conf args) ≡ key conf args
unfolding key
key-trimmed conf args = trim_right_idem slash (key_prefix conf ++ write_args args)
