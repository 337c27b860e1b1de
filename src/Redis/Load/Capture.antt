-- ===== src/Redis/Load/Capture.antt =====
-- Where the pools of a load from the file dial to: every closure reads its loop's variables, and
-- these hold what the loop assigned last.
use mathlib.Core.Option.{some-injective}
use motor.Base.{
  ℕ, ◌<◌, ◌≡◌, inl, inr, refl, subst, sym, ◌∙◌, Text, false, none, some, List, [], ◌∷◌, arith, All,
  length, get_elem?, get_elem?-append_self, get_elem?_in_range, last_or, replicate, All-replicate,
  length-replicate, text_eq, text_eq_iff, slice_at, lookup, IsKeyed, Bool-cases,
}
use motor.Redis.Types.{
  NodeConf, ClusterConf, RedisConf, Pool, RedisPool, OpMode, read, write, DialConf, dial_conf,
  dial_args,
}
use motor.Redis.Load.{
  Loading, new_pool, zero_node, zero_cluster, skips, range_file, file_round, new_cluster_var, start,
  loaded, parse_file_conf,
}
use motor.Redis.Load.Rounds.{nodes_of, map_of, round_old, round_other, round_clusters, round_self}

abbrev pub last_cluster : ClusterConf → RedisConf → ClusterConf
last_cluster d [] = d
last_cluster d ((name, c) ∷ server) = last_cluster c server

module _ (cv : ℕ) (idc : Text) where
  range_file_old :
      (server : RedisConf) (l : Loading) (i : ℕ)
      → i < length l.vars.nodes
      → get_elem? (range_file cv idc server l).vars.nodes i ≡ get_elem? l.vars.nodes i
  unfolding range_file
  range_file_old [] l i h = refl
  range_file_old ((name, c) ∷ server) l i h =
      let (same, grows) = round_old cv idc name c l i h in
      range_file_old server (file_round cv idc name c l) i (omega arith) ∙ same

  -- The variable `cluster` ends as the last cluster of the file, passed over or not.
  range_file_cluster :
      (server : RedisConf) (l : Loading) (d : ClusterConf)
      → get_elem? l.vars.clusters cv ≡ some d
      → get_elem? (range_file cv idc server l).vars.clusters cv ≡ some (last_cluster d server)
  unfolding range_file
  range_file_cluster [] l d h = h
  range_file_cluster ((name, c) ∷ server) l d h =
      range_file_cluster server (file_round cv idc name c l) c
        (ground (arith, round_clusters cv idc name c l cv))

  range_file_other :
      (mode : OpMode) (server : RedisConf) (l : Loading) (q : Text)
      → lookup q server ≡ none
      → slice_at q (map_of mode (range_file cv idc server l)) ≡ slice_at q (map_of mode l)
  unfolding range_file lookup
  range_file_other mode [] l q h = refl
  range_file_other mode ((name, c) ∷ server) l q h = elim (Bool-cases (text_eq name q)) [
    | inl same ↦ cc (rw same at h)
    | inr other ↦
        range_file_other mode server (file_round cv idc name c l) q (rw other at h)
        ∙ round_other cv idc mode name c l q other
  ]

  -- The pools of a cluster are alike, and share one variable, which ends as the last node.
  abbrev Found : OpMode → RedisConf → Loading → Text → ClusterConf → Type 0
  Found mode server l q c =
      (nv : ℕ) × (slice_at q (map_of mode (range_file cv idc server l))
        ≡ replicate (length (nodes_of mode c)) (new_pool nv cv c))
      × (get_elem? (range_file cv idc server l).vars.nodes nv
          ≡ some (last_or zero_node (nodes_of mode c)))

  range_file_head :
      (mode : OpMode) (server : RedisConf) (l : Loading) (name : Text) (c : ClusterConf)
      → lookup name server ≡ none
      → skips idc c.idc ≡ false
      → slice_at name (map_of mode l) ≡ []
      → Found mode ((name, c) ∷ server) l name c
  unfolding range_file
  range_file_head mode server l name c once s empty =
      let (nv, pools, cell) = round_self cv idc mode name c l s in
      (
        nv,
        range_file_other mode server (file_round cv idc name c l) name once ∙ pools ∙ rw empty,
        range_file_old server (file_round cv idc name c l) nv
              (get_elem?_in_range (file_round cv idc name c l).vars.nodes nv _ cell)
            ∙ cell,
      )

  range_file_self :
      (mode : OpMode) (server : RedisConf) (l : Loading) (q : Text) (c : ClusterConf)
      → IsKeyed server
      → lookup q server ≡ some c
      → skips idc c.idc ≡ false
      → slice_at q (map_of mode l) ≡ []
      → Found mode server l q c
  unfolding range_file lookup
  range_file_self mode [] l q c keyed here s empty = cc
  range_file_self mode ((name, c') ∷ server) l q c keyed here s empty =
      elim (Bool-cases (text_eq name q)) [
        | inl same ↦
            let n : name ≡ q = (text_eq_iff name q).0 same in
            let e : c' ≡ c = some-injective c' c (rw same at here) in
            subst (λ x. Found mode ((name, c') ∷ server) l x c) n
              (subst (Found mode ((name, c') ∷ server) l name) e (
                range_file_head mode server l name c' keyed.0
                  (subst (λ (x : ClusterConf). skips idc x.idc ≡ false) (sym e) s)
                  (subst (λ x. slice_at x (map_of mode l) ≡ []) (sym n) empty)))
        | inr other ↦
            range_file_self mode server (file_round cv idc name c' l) q c keyed.1 (rw other at here)
              s (round_other cv idc mode name c' l q other ∙ empty)
      ]

-- The map of a mode after a load.
abbrev pub pools_of : OpMode → RedisPool → Text → List Pool
pools_of read redi name = elim redi.s_map [ none ↦ [] | some m ↦ slice_at name m ]
pools_of write redi name = elim redi.m_map [ none ↦ [] | some m ↦ slice_at name m ]

pools_of-loaded :
    (mode : OpMode) (redi : RedisPool) (l : Loading) (name : Text)
    → pools_of mode (loaded redi l) name ≡ slice_at name (map_of mode l)
unfolding loaded
pools_of-loaded read redi l name = refl
pools_of-loaded write redi l name = refl

-- A load starts with empty maps and a new variable for the clusters.
map_of-start :
    (mode : OpMode) (redi : RedisPool) (name : Text)
    → slice_at name (map_of mode (new_cluster_var (start redi))) ≡ []
unfolding new_cluster_var start slice_at lookup
map_of-start read redi name = refl
map_of-start write redi name = refl

-- What a pool of the cluster dials after the load, and its own settings.
abbrev pub DialsAs : RedisPool → DialConf → ClusterConf → Pool → Type 0
DialsAs redi d c p =
    (dial_conf redi.vars p ≡ some d) × (p.max_idle ≡ c.max_idle) × (p.max_active ≡ c.max_active)

new_pool-DialsAs :
    (nv cv : ℕ) (redi : RedisPool) (l : Loading) (n : NodeConf) (c d : ClusterConf)
    → get_elem? l.vars.nodes nv ≡ some n
    → get_elem? l.vars.clusters cv ≡ some d
    → DialsAs (loaded redi l) (dial_args n d) c (new_pool nv cv c)
unfolding loaded new_pool dial_conf
new_pool-DialsAs nv cv redi l n c d here there = (ground (arith, here, there), refl, refl)

-- After a load from the file, a cluster that stands once in the file and is of the wanted idc has
-- one pool for each of its nodes, with its own sizes, and every one of them dials the last node of
-- the list with the timeouts of the last cluster of the file.
pub parse_file_conf-dials_last :
    (mode : OpMode) (cfg : RedisConf) (redi : RedisPool) (name : Text) (c : ClusterConf)
    → IsKeyed cfg
    → lookup name cfg ≡ some c
    → skips redi.idc c.idc ≡ false
    → let redi' = parse_file_conf cfg redi in
      (length (pools_of mode redi' name) ≡ length (nodes_of mode c))
      × All
          (DialsAs redi'
            (dial_args (last_or zero_node (nodes_of mode c)) (last_cluster zero_cluster cfg))
            c)
          (pools_of mode redi' name)
unfolding parse_file_conf
parse_file_conf-dials_last mode cfg redi name c keyed here s =
    let cv = length redi.vars.clusters in
    let l = range_file cv redi.idc cfg (new_cluster_var (start redi)) in
    let (nv, pools, cell) =
      range_file_self cv redi.idc mode cfg (new_cluster_var (start redi)) name c keyed here s
        (map_of-start mode redi name) in
    let same : pools_of mode (loaded redi l) name
        ≡ replicate (length (nodes_of mode c)) (new_pool nv cv c) =
      pools_of-loaded mode redi l name ∙ pools in
    rw same (
      length-replicate (length (nodes_of mode c)) (new_pool nv cv c),
      All-replicate _ (length (nodes_of mode c)) (new_pool nv cv c) (
          new_pool-DialsAs nv cv redi l _ c _ cell (
            range_file_cluster cv redi.idc cfg (new_cluster_var (start redi)) zero_cluster
              (get_elem?-append_self redi.vars.clusters zero_cluster))),
    )
