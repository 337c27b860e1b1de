-- ===== src/Mysql/Load/Reached.antt =====
-- Which databases a load leaves behind a name.
use motor.Base.{
  ℕ, Text, Dict, Bool, ◌≡◌, refl, ap, sym, ◌∙◌, inl, inr, Option, none, some, List, [], ◌∷◌, ◌++◌,
  map, arith, lookup, slice_at, slice_at-append_at, is_empty, text_eq, Bool-cases, if◌then◌else◌,
}
use mathlib.Core.List.{append_assoc, append-nil}
use motor.Naming.Types.{Instance, structured_attr}
use motor.Mysql.Types.{
  NodeConf, ClusterConf, MysqlConf, Source, Settings, settings_of, Handle, OpMode, read, write,
  MysqlPool, State,
}
use motor.Mysql.Load.{
  Opening, Loading, opened, failed, open_node, range_nodes, add_masters, add_slaves, add_cluster,
  skips, range_file, range_naming, add_attr, range_instances, start, loaded, parse_file_conf,
  parse_naming_instance,
}
use motor.Mysql.Load.Listed.{
  dbs_of, map_of, nodes_of, wants, skips-wants, listed, attr_listed, registered, reachable,
}

reachable-append :
    (up : Source → Bool) (ss ts : List Settings)
    → reachable up (ss ++ ts) ≡ reachable up ss ++ reachable up ts
unfolding reachable
reachable-append up [] ts = refl
reachable-append up (s ∷ ss) ts = ground (arith, reachable-append up ss ts)

abbrev pub settings : Handle → Settings
settings h = h.settings

settings-append :
    (hs gs : List Handle) → map settings (hs ++ gs) ≡ map settings hs ++ map settings gs
settings-append [] gs = refl
settings-append (h ∷ hs) gs = ap (λ rest. h.settings ∷ rest) (settings-append hs gs)

-- Each server gives one answer all through a load.
abbrev pub IsSteady : (ℕ → Source → Bool) → (Source → Bool) → Type 0
IsSteady opens up = (n : ℕ) (source : Source) → opens n source ≡ up source

abbrev behind : Text → Dict (List Handle) → List Settings
behind name m = map settings (slice_at name m)

module _ (opens : ℕ → Source → Bool) (up : Source → Bool) (steady : IsSteady opens up) where
  open_node_lem :
      (dbname name : Text) (c : ClusterConf) (n : NodeConf) (ns : List NodeConf) (o : Opening)
      → behind name (open_node opens dbname c n o).dbs
          ++ (if text_eq dbname name then reachable up (map (settings_of dbname c) ns) else [])
        ≡ behind name o.dbs
          ++ (if text_eq dbname name
              then reachable up (map (settings_of dbname c) (n ∷ ns))
              else [])
  unfolding open_node opened failed reachable
  open_node_lem dbname name c n ns o =
      let s = settings_of dbname c n in
      let h : Handle = record { id = o.driver.attempts; settings = s } in
      elim (Bool-cases (up s.source)) [
        | inl e ↦
            rw (steady o.driver.attempts s.source, e, slice_at-append_at dbname name h o.dbs)
              (elim (Bool-cases (text_eq dbname name)) [
                | inl f ↦
                    rw (f, settings-append (slice_at name o.dbs) (h ∷ []))
                      (append_assoc (behind name o.dbs) (s ∷ []) _)
                | inr f ↦ rw f refl
              ])
        | inr e ↦ rw (steady o.driver.attempts s.source, e) refl
      ]

  range_nodes_lem :
      (dbname name : Text) (c : ClusterConf) (ns : List NodeConf) (o : Opening)
      → behind name (range_nodes opens dbname c ns o).dbs
        ≡ behind name o.dbs
          ++ (if text_eq dbname name then reachable up (map (settings_of dbname c) ns) else [])
  unfolding range_nodes reachable
  range_nodes_lem dbname name c [] o = ground (arith, append-nil (behind name o.dbs))
  range_nodes_lem dbname name c (n ∷ ns) o =
      range_nodes_lem dbname name c ns (open_node opens dbname c n o)
      ∙ open_node_lem dbname name c n ns o

  add_cluster_lem :
      (mode : OpMode) (dbname name : Text) (c : ClusterConf) (l : Loading)
      → behind name (map_of mode (add_cluster opens dbname c l))
        ≡ behind name (map_of mode l)
          ++ (if text_eq dbname name
              then reachable up (map (settings_of dbname c) (nodes_of mode c))
              else [])
  unfolding add_cluster add_masters add_slaves
  add_cluster_lem read dbname name c l = range_nodes_lem dbname name c c.slave _
  add_cluster_lem write dbname name c l = range_nodes_lem dbname name c c.master _

  added_lem :
      (mode : OpMode) (dbname name : Text) (c : ClusterConf) (ss : List Settings) (l : Loading)
      → behind name (map_of mode (add_cluster opens dbname c l)) ++ reachable up ss
        ≡ behind name (map_of mode l)
          ++ reachable up (
              if text_eq dbname name
              then map (settings_of dbname c) (nodes_of mode c) ++ ss
              else ss)
  added_lem mode dbname name c ss l =
      let mine = map (settings_of dbname c) (nodes_of mode c) in
      elim (Bool-cases (text_eq dbname name)) [
        | inl f ↦
            rw (add_cluster_lem mode dbname name c l, f, reachable-append up mine ss)
              (append_assoc (behind name (map_of mode l)) (reachable up mine) (reachable up ss))
        | inr f ↦
            rw (add_cluster_lem mode dbname name c l, f, append-nil (behind name (map_of mode l)))
              refl
      ]

  range_file_lem :
      (mode : OpMode) (idc name : Text) (cfg : MysqlConf) (l : Loading)
      → behind name (map_of mode (range_file opens idc cfg l))
        ≡ behind name (map_of mode l) ++ reachable up (listed mode idc name cfg)
  unfolding range_file listed
  range_file_lem mode idc name [] l =
      sym (append-nil (behind name (map_of mode l))) ∙ unfold reachable in refl
  range_file_lem mode idc name ((dbname, c) ∷ cfg) l = elim (Bool-cases (wants idc c.idc)) [
    | inl e ↦
        rw (range_file_lem mode idc name cfg _, skips-wants idc c.idc, e)
          (added_lem mode dbname name c (listed mode idc name cfg) l)
    | inr e ↦ rw (range_file_lem mode idc name cfg _, skips-wants idc c.idc, e) refl
  ]

  range_naming-range_file :
      (cfg : MysqlConf) (l : Loading) → range_naming opens cfg l ≡ range_file opens [] cfg l
  unfolding range_naming range_file skips is_empty
  range_naming-range_file [] l = refl
  range_naming-range_file ((dbname, c) ∷ cfg) l =
      range_naming-range_file cfg (add_cluster opens dbname c l)

  -- After a load of the file, with servers that give one answer all through it, there is behind a
  -- name in order one handle for each of the databases that the file lists for it and the pool's
  -- idc, with their own sources and limits, as far as they answer, and none else.
  pub parse_file_conf-reachable :
      (mode : OpMode) (cfg : MysqlConf) (s : State) (name : Text)
      → map settings (dbs_of mode (parse_file_conf opens cfg s).my name)
        ≡ reachable up (listed mode s.my.idc name cfg)
  unfolding parse_file_conf loaded start slice_at lookup
  parse_file_conf-reachable read cfg s name = range_file_lem read s.my.idc name cfg (start s.driver)
  parse_file_conf-reachable write cfg s name =
      range_file_lem write s.my.idc name cfg (start s.driver)

  add_attr_lem :
      (mode : OpMode) (name : Text) (attr : Option MysqlConf) (ss : List Settings) (l : Loading)
      → behind name (map_of mode (add_attr opens attr l)) ++ reachable up ss
        ≡ behind name (map_of mode l) ++ reachable up (attr_listed mode name attr ++ ss)
  unfolding add_attr attr_listed
  add_attr_lem mode name none ss l = refl
  add_attr_lem mode name (some attr) ss l =
      rw
        (
          range_naming-range_file attr l,
          range_file_lem mode [] name attr l,
          reachable-append up (listed mode [] name attr) ss,
        )
        (append_assoc (behind name (map_of mode l)) (reachable up (listed mode [] name attr))
          (reachable up ss))

  range_instances_lem :
      (mode : OpMode) (decode : Text → Option MysqlConf) (my : MysqlPool) (name : Text)
      (is : List Instance) (l : Loading)
      → behind name (map_of mode (range_instances opens decode my is l))
        ≡ behind name (map_of mode l) ++ reachable up (registered mode decode my name is)
  unfolding range_instances registered
  range_instances_lem mode decode my name [] l =
      sym (append-nil (behind name (map_of mode l))) ∙ unfold reachable in refl
  range_instances_lem mode decode my name (i ∷ is) l = elim (Bool-cases (wants my.idc i.idc)) [
    | inl e ↦ elim (Bool-cases (wants my.pub_env i.pub_env)) [
      | inl f ↦
          rw
            (
              range_instances_lem mode decode my name is _,
              skips-wants my.idc i.idc,
              skips-wants my.pub_env i.pub_env,
              e,
              f,
            )
            (add_attr_lem mode name (structured_attr decode i) (registered mode decode my name is)
              l)
      | inr f ↦
          rw
            (
              range_instances_lem mode decode my name is _,
              skips-wants my.idc i.idc,
              skips-wants my.pub_env i.pub_env,
              e,
              f,
            )
            refl
    ]
    | inr e ↦ rw (range_instances_lem mode decode my name is _, skips-wants my.idc i.idc, e) refl
  ]

  -- After a load of the naming service's instances, with servers that give one answer all through
  -- it, there is behind a name in order one handle for each of the databases that the instances of
  -- the pool's idc and pubenv list for it, with their own sources and limits, as far as they
  -- answer, and none else.
  pub parse_naming_instance-reachable :
      (mode : OpMode) (decode : Text → Option MysqlConf) (is : List Instance) (s : State)
      (name : Text)
      → map settings (dbs_of mode (parse_naming_instance opens decode is s).my name)
        ≡ reachable up (registered mode decode s.my name is)
  unfolding parse_naming_instance loaded start slice_at lookup
  parse_naming_instance-reachable read decode [] s name = unfold registered reachable in refl
  parse_naming_instance-reachable write decode [] s name = unfold registered reachable in refl
  parse_naming_instance-reachable read decode (i ∷ is) s name =
      range_instances_lem read decode s.my name (i ∷ is) (start s.driver)
  parse_naming_instance-reachable write decode (i ∷ is) s name =
      range_instances_lem write decode s.my name (i ∷ is) (start s.driver)
