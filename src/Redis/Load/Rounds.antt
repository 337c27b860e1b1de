-- ===== src/Redis/Load/Rounds.antt =====
-- One round of the load from the file: the pools that it adds, and the variables that it assigns.
use mathlib.Core.Option
use mathlib.Core.Option.{some-injective}
use motor.Base.{
  ℕ, ◌≤◌, ◌<◌, ◌≡◌, inl, inr, refl, ◌∙◌, Text, Dict, false, some, List, ◌++◌, arith, length,
  get_elem?, get_elem?-modify, last_or, replicate, text_eq, text_eq_refl, slice_at, Bool-cases,
  if◌then◌else◌, ◌==◌,
}
use motor.Redis.Types.{NodeConf, ClusterConf, Pool, OpMode, read, write}
use motor.Redis.Load.{
  Loading, new_pool, for_nodes, add_cluster, assign_cluster, zero_node, skips, file_round,
}
use motor.Redis.Load.Cells.{
  slice_at-for_nodes, length-for_nodes, get_elem?-for_nodes_old, get_elem?-for_nodes_new,
}

-- A cluster's nodes for a mode, and a load's map for it.
abbrev pub nodes_of : OpMode → ClusterConf → List NodeConf
nodes_of read c = c.slave
nodes_of write c = c.master

abbrev pub map_of : OpMode → Loading → Dict (List Pool)
map_of read l = l.s_map
map_of write l = l.m_map

module _ (cv : ℕ) (name : Text) (c : ClusterConf) (l : Loading) where
  add_cluster_old :
      (i : ℕ)
      → i < length l.vars.nodes
      → get_elem? (add_cluster cv name c l).vars.nodes i ≡ get_elem? l.vars.nodes i
  unfolding add_cluster
  add_cluster_old i h =
      let ms = for_nodes cv name c c.master l.vars.nodes l.m_map in
      get_elem?-for_nodes_old cv name c c.slave ms.0 l.s_map i
        (omega (arith, length-for_nodes cv name c c.master l.vars.nodes l.m_map))
      ∙ get_elem?-for_nodes_old cv name c c.master l.vars.nodes l.m_map i h

  length-add_cluster : length l.vars.nodes ≤ length (add_cluster cv name c l).vars.nodes
  unfolding add_cluster
  length-add_cluster =
      let ms = for_nodes cv name c c.master l.vars.nodes l.m_map in
      omega (
        arith,
        length-for_nodes cv name c c.master l.vars.nodes l.m_map,
        length-for_nodes cv name c c.slave ms.0 l.s_map,
      )

  add_cluster_other :
      (mode : OpMode) (q : Text)
      → text_eq name q ≡ false
      → slice_at q (map_of mode (add_cluster cv name c l)) ≡ slice_at q (map_of mode l)
  unfolding add_cluster
  add_cluster_other read q h =
      let ms = for_nodes cv name c c.master l.vars.nodes l.m_map in
      slice_at-for_nodes cv name c c.slave ms.0 l.s_map q ∙ rw h
  add_cluster_other write q h = slice_at-for_nodes cv name c c.master l.vars.nodes l.m_map q ∙ rw h

  add_cluster_self :
      (mode : OpMode)
      → (nv : ℕ) × (slice_at name (map_of mode (add_cluster cv name c l))
          ≡ slice_at name (map_of mode l)
            ++ replicate (length (nodes_of mode c)) (new_pool nv cv c))
        × (get_elem? (add_cluster cv name c l).vars.nodes nv
            ≡ some (last_or zero_node (nodes_of mode c)))
  unfolding add_cluster
  add_cluster_self read =
      let ms = for_nodes cv name c c.master l.vars.nodes l.m_map in
      (
        length ms.0,
        slice_at-for_nodes cv name c c.slave ms.0 l.s_map name ∙ rw (text_eq_refl name),
        get_elem?-for_nodes_new cv name c c.slave ms.0 l.s_map,
      )
  add_cluster_self write =
      let ms = for_nodes cv name c c.master l.vars.nodes l.m_map in
      (
        length l.vars.nodes,
        slice_at-for_nodes cv name c c.master l.vars.nodes l.m_map name ∙ rw (text_eq_refl name),
        get_elem?-for_nodes_old cv name c c.slave ms.0 l.s_map (length l.vars.nodes)
              (omega (arith, length-for_nodes cv name c c.master l.vars.nodes l.m_map))
            ∙ get_elem?-for_nodes_new cv name c c.master l.vars.nodes l.m_map,
      )

module _ (cv : ℕ) (idc : Text) where
  pub round_old :
      (name : Text) (c : ClusterConf) (l : Loading) (i : ℕ)
      → i < length l.vars.nodes
      → (get_elem? (file_round cv idc name c l).vars.nodes i ≡ get_elem? l.vars.nodes i)
        × (length l.vars.nodes ≤ length (file_round cv idc name c l).vars.nodes)
  unfolding file_round assign_cluster
  round_old name c l i h = elim (Bool-cases (skips idc c.idc)) [
    | inl s ↦ rw (s, file_round) (refl, omega arith)
    | inr s ↦
        rw (s, file_round)
          (
            add_cluster_old cv name c (assign_cluster cv c l) i h,
            length-add_cluster cv name c (assign_cluster cv c l),
          )
  ]

  pub round_other :
      (mode : OpMode) (name : Text) (c : ClusterConf) (l : Loading) (q : Text)
      → text_eq name q ≡ false
      → slice_at q (map_of mode (file_round cv idc name c l)) ≡ slice_at q (map_of mode l)
  unfolding file_round assign_cluster
  round_other read name c l q h = elim (Bool-cases (skips idc c.idc)) [
    | inl s ↦ rw (s, file_round)
    | inr s ↦ rw (s, file_round) (add_cluster_other cv name c (assign_cluster cv c l) read q h)
  ]
  round_other write name c l q h = elim (Bool-cases (skips idc c.idc)) [
    | inl s ↦ rw (s, file_round)
    | inr s ↦ rw (s, file_round) (add_cluster_other cv name c (assign_cluster cv c l) write q h)
  ]

  pub round_clusters :
      (name : Text) (c : ClusterConf) (l : Loading) (i : ℕ)
      → get_elem? (file_round cv idc name c l).vars.clusters i ≡ (
          if cv == i
          then Option.map (λ _. c) (get_elem? l.vars.clusters i)
          else get_elem? l.vars.clusters i)
  unfolding file_round assign_cluster add_cluster
  round_clusters name c l i = elim (Bool-cases (skips idc c.idc)) [
    | inl s ↦ rw (s, file_round) (get_elem?-modify cv i (λ _. c) l.vars.clusters)
    | inr s ↦ rw (s, file_round) (get_elem?-modify cv i (λ _. c) l.vars.clusters)
  ]

  pub round_self :
      (mode : OpMode) (name : Text) (c : ClusterConf) (l : Loading)
      → skips idc c.idc ≡ false
      → (nv : ℕ) × (slice_at name (map_of mode (file_round cv idc name c l))
          ≡ slice_at name (map_of mode l)
            ++ replicate (length (nodes_of mode c)) (new_pool nv cv c))
        × (get_elem? (file_round cv idc name c l).vars.nodes nv
            ≡ some (last_or zero_node (nodes_of mode c)))
  unfolding file_round assign_cluster
  round_self read name c l s =
      rw (s, file_round) (add_cluster_self cv name c (assign_cluster cv c l) read)
  round_self write name c l s =
      rw (s, file_round) (add_cluster_self cv name c (assign_cluster cv c l) write)
