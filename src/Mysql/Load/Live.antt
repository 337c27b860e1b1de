-- ===== src/Mysql/Load/Live.antt =====
-- What a load keeps: no handle is closed, and its maps hold new handles, all of them open.
use motor.Base.{
  ℕ, ◌<◌, ◌≤◌, Text, Dict, Bool, true, false, ◌≡◌, refl, inl, inr, Option, none, some, List, [],
  ◌∷◌, ◌++◌, arith, Bool-cases, if◌then◌else◌, In, In-append_left, In-append_right, In-append_cases,
}
use motor.Naming.Types.{Instance, structured_attr}
use motor.Mysql.Types.{
  NodeConf, ClusterConf, MysqlConf, Source, settings_of, Handle, Driver, MysqlPool,
}
use motor.Mysql.Load.{
  Opening, Loading, opened, failed, open_node, range_nodes, add_masters, add_slaves, add_cluster,
  skips, range_file, range_naming, add_attr, range_instances,
}
use motor.Mysql.Load.Held.{Holds, Holds-append_at}

-- No handle is closed on the way.
abbrev pub Grows : Driver → Driver → Type 0
Grows d d' = (d.attempts ≤ d'.attempts) × ((h : Handle) → In h d.live → In h d'.live)

-- The next attempt makes a pointer that is new.
abbrev pub IsBelow : Driver → Type 0
IsBelow d = (h : Handle) → In h d.live → h.id < d.attempts

-- All handles of a map are open and were made by attempts from the a-th on.
abbrev pub IsBacked : ℕ → Driver → Dict (List Handle) → Type 0
IsBacked a d m = (h : Handle) → Holds h m → (a ≤ h.id) × In h d.live

Grows-trans : (d e f : Driver) → Grows d e → Grows e f → Grows d f
Grows-trans d e f p q = (omega (arith, p.0, q.0), λ h i. q.1 h (p.1 h i))

IsBacked-Grows :
    (a : ℕ) (d e : Driver) (m : Dict (List Handle)) → Grows d e → IsBacked a d m → IsBacked a e m
IsBacked-Grows a d e m g b h i = ((b h i).0, g.1 h (b h i).1)

-- What a loop over nodes keeps, from the a-th attempt of a load.
abbrev IsOpening : ℕ → Opening → Type 0
IsOpening a o = (a ≤ o.driver.attempts) × IsBelow o.driver × IsBacked a o.driver o.dbs

opened-IsOpening :
    (a : ℕ) (dbname : Text) (h : Handle) (o : Opening)
    → h.id ≡ o.driver.attempts
    → IsOpening a o
    → IsOpening a (opened dbname h o) × Grows o.driver (opened dbname h o).driver
unfolding opened
opened-IsOpening a dbname h o e (le, below, backed) =
    let new : In h (o.driver.live ++ (h ∷ [])) = In-append_right h o.driver.live _ (inl refl) in
    (
      (
        omega (arith, le),
        λ g i. elim (In-append_cases g o.driver.live (h ∷ []) i) [
          | inl p ↦ omega (arith, below g p)
          | inr (inl q) ↦ rw (q, e) (omega arith)
          | inr (inr q) ↦ absurd q
        ],
        λ g i. elim (Holds-append_at g dbname h o.dbs i) [
          | inl p ↦ ((backed g p).0, In-append_left g o.driver.live _ (backed g p).1)
          | inr q ↦ rw q (rw e le, new)
        ],
      ),
      (omega arith, λ g i. In-append_left g o.driver.live _ i),
    )

failed-IsOpening :
    (a : ℕ) (o : Opening)
    → IsOpening a o
    → IsOpening a (failed o) × Grows o.driver (failed o).driver
unfolding failed
failed-IsOpening a o (le, below, backed) =
    ((omega (arith, le), λ g i. omega (arith, below g i), backed), (omega arith, λ g i. i))

-- What a load keeps, over the driver that it began with.
abbrev pub IsLoading : ℕ → Driver → Loading → Type 0
IsLoading a d l =
    Grows d l.driver
    × (a ≤ l.driver.attempts)
    × IsBelow l.driver
    × IsBacked a l.driver l.m_map
    × IsBacked a l.driver l.s_map

module _ (opens : ℕ → Source → Bool) (a : ℕ) where
  open_node-IsOpening :
      (dbname : Text) (c : ClusterConf) (n : NodeConf) (o : Opening)
      → IsOpening a o
      → let o' = open_node opens dbname c n o in IsOpening a o' × Grows o.driver o'.driver
  unfolding open_node
  open_node-IsOpening dbname c n o k =
      let s = settings_of dbname c n in
      let h : Handle = record { id = o.driver.attempts; settings = s } in
      elim (Bool-cases (opens o.driver.attempts s.source)) [
        | inl e ↦ rw (e, open_node) (opened-IsOpening a dbname h o refl k)
        | inr e ↦ rw (e, open_node) (failed-IsOpening a o k)
      ]

  range_nodes-IsOpening :
      (dbname : Text) (c : ClusterConf) (ns : List NodeConf) (o : Opening)
      → IsOpening a o
      → let o' = range_nodes opens dbname c ns o in IsOpening a o' × Grows o.driver o'.driver
  unfolding range_nodes
  range_nodes-IsOpening dbname c [] o k = (k, (omega arith, λ g i. i))
  range_nodes-IsOpening dbname c (n ∷ ns) o k =
      let (k1, g1) = open_node-IsOpening dbname c n o k in
      let (k2, g2) = range_nodes-IsOpening dbname c ns (open_node opens dbname c n o) k1 in
      (k2, Grows-trans o.driver _ _ g1 g2)

  module _ (d : Driver) where
    add_cluster-IsLoading :
        (dbname : Text) (c : ClusterConf) (l : Loading)
        → IsLoading a d l
        → IsLoading a d (add_cluster opens dbname c l)
    unfolding add_cluster add_masters add_slaves
    add_cluster-IsLoading dbname c l (g, le, below, ms, ss) =
        let ((le1, below1, ms1), g1) =
          range_nodes-IsOpening dbname c c.master (record { driver = l.driver; dbs = l.m_map })
            (le, below, ms) in
        let l1 = add_masters opens dbname c l in
        let ((le2, below2, ss2), g2) =
          range_nodes-IsOpening dbname c c.slave (record { driver = l1.driver; dbs = l.s_map })
            (le1, below1, IsBacked-Grows a l.driver l1.driver l.s_map g1 ss) in
        (
          Grows-trans d _ _ (Grows-trans d _ _ g g1) g2,
          le2,
          below2,
          IsBacked-Grows a l1.driver _ l1.m_map g2 ms1,
          ss2,
        )

    if-IsLoading :
        (b : Bool) (l l' : Loading)
        → IsLoading a d l
        → IsLoading a d l'
        → IsLoading a d (if b then l else l')
    if-IsLoading true l l' k k' = k
    if-IsLoading false l l' k k' = k'

    pub range_file-IsLoading :
        (idc : Text) (cfg : MysqlConf) (l : Loading)
        → IsLoading a d l
        → IsLoading a d (range_file opens idc cfg l)
    unfolding range_file
    range_file-IsLoading idc [] l k = k
    range_file-IsLoading idc ((dbname, c) ∷ cfg) l k =
        range_file-IsLoading idc cfg _
          (if-IsLoading (skips idc c.idc) l _ k (add_cluster-IsLoading dbname c l k))

    range_naming-IsLoading :
        (cfg : MysqlConf) (l : Loading) → IsLoading a d l → IsLoading a d (range_naming opens cfg l)
    unfolding range_naming
    range_naming-IsLoading [] l k = k
    range_naming-IsLoading ((dbname, c) ∷ cfg) l k =
        range_naming-IsLoading cfg _ (add_cluster-IsLoading dbname c l k)

    add_attr-IsLoading :
        (attr : Option MysqlConf) (l : Loading)
        → IsLoading a d l
        → IsLoading a d (add_attr opens attr l)
    unfolding add_attr
    add_attr-IsLoading none l k = k
    add_attr-IsLoading (some attr) l k = range_naming-IsLoading attr l k

    pub range_instances-IsLoading :
        (decode : Text → Option MysqlConf) (my : MysqlPool) (is : List Instance) (l : Loading)
        → IsLoading a d l
        → IsLoading a d (range_instances opens decode my is l)
    unfolding range_instances
    range_instances-IsLoading decode my [] l k = k
    range_instances-IsLoading decode my (i ∷ is) l k = range_instances-IsLoading decode my is _ (
        if-IsLoading (skips my.idc i.idc) l _ k (
          if-IsLoading (skips my.pub_env i.pub_env) l _ k
            (add_attr-IsLoading (structured_attr decode i) l k)))
