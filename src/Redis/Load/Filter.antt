-- ===== src/Redis/Load/Filter.antt =====
-- Which instances of the naming service a load takes.
use mathlib.Core.Bool.{not}
use motor.Base.{
  ◌≡◌, refl, ap, sym, ◌∙◌, Text, Bool, ◌&&◌, ◌||◌, Option, List, [], ◌∷◌, arith, is_empty, text_eq,
  if◌then◌else◌,
}
use motor.Naming.Types.{Instance, structured_attr}
use motor.Redis.Types.{RedisConf, RedisPool}
use motor.Redis.Load.{
  Loading, skips, range_instances, parse_naming_instance, loaded, start, add_attr,
}

-- An empty setting wants any value.
abbrev pub wants : Text → Text → Bool
wants mine theirs = is_empty mine || text_eq mine theirs

unfoldable pub wanted : RedisPool → List Instance → List Instance
wanted redi [] = []
wanted redi (i ∷ is) =
    let rest = wanted redi is in
    if wants redi.idc i.idc && wants redi.pub_env i.pub_env then i ∷ rest else rest

skips-wants : (mine theirs : Text) → skips mine theirs ≡ not (wants mine theirs)
unfolding skips
skips-wants mine theirs = ground arith

range_instances-wanted :
    (decode : Text → Option RedisConf) (redi : RedisPool) (is : List Instance) (l : Loading)
    → range_instances decode redi (wanted redi is) l ≡ range_instances decode redi is l
unfolding range_instances wanted
range_instances-wanted decode redi [] l = refl
range_instances-wanted decode redi (i ∷ is) l = ground (
  arith,
  skips-wants redi.idc i.idc,
  skips-wants redi.pub_env i.pub_env,
  range_instances-wanted decode redi is l,
  range_instances-wanted decode redi is (add_attr (structured_attr decode i) l),
)

-- The early return for no instances is what the loop would do.
parse_naming_instance-loaded :
    (decode : Text → Option RedisConf) (redi : RedisPool) (is : List Instance)
    → parse_naming_instance decode is redi
      ≡ loaded redi (range_instances decode redi is (start redi))
unfolding parse_naming_instance
parse_naming_instance-loaded decode redi [] = refl
parse_naming_instance-loaded decode redi (i ∷ is) = refl

-- A load from the naming service leaves the same pool as a load of those instances alone whose idc
-- and pubenv are the pool's, where the pool's is set.
pub parse_naming_instance-wanted :
    (decode : Text → Option RedisConf) (redi : RedisPool) (is : List Instance)
    → parse_naming_instance decode (wanted redi is) redi ≡ parse_naming_instance decode is redi
parse_naming_instance-wanted decode redi is =
    parse_naming_instance-loaded decode redi (wanted redi is)
    ∙ ap (loaded redi) (range_instances-wanted decode redi is (start redi))
    ∙ sym (parse_naming_instance-loaded decode redi is)
