-- ===== src/Redis/Load/Cells.antt =====
-- What the loops over nodes and clusters do to the variables and the maps.
use mathlib.Core.List.{append_assoc, append-nil}
use mathlib.Core.Option
use motor.Base.{
  ℕ, ◌+◌, ◌<◌, ◌≡◌, refl, Text, Dict, some, List, [], ◌∷◌, ◌++◌, arith, length, length-append,
  length-modify, modify, get_elem?, get_elem?-modify, get_elem?-append_left, get_elem?-append_self,
  last_or, replicate, text_eq, append_at, slice_at, slice_at-append_at, if◌then◌else◌, ◌==◌,
}
use motor.Redis.Types.{NodeConf, ClusterConf, Pool}
use motor.Redis.Load.{new_pool, range_nodes, for_nodes, zero_node}

module _ (nv cv : ℕ) (name : Text) (c : ClusterConf) where
  slice_at-range_nodes :
      (ns vs : List NodeConf) (m : Dict (List Pool)) (q : Text)
      → slice_at q (range_nodes nv cv name c ns vs m).1 ≡ (
          if text_eq name q
          then slice_at q m ++ replicate (length ns) (new_pool nv cv c)
          else slice_at q m)
  unfolding range_nodes
  slice_at-range_nodes [] vs m q = ground (arith, append-nil (slice_at q m))
  slice_at-range_nodes (n ∷ ns) vs m q = ground (
    arith,
    slice_at-range_nodes ns (modify nv (λ _. n) vs) (append_at name (new_pool nv cv c) m) q,
    slice_at-append_at name q (new_pool nv cv c) m,
    append_assoc (slice_at q m) (new_pool nv cv c ∷ []) (replicate (length ns) (new_pool nv cv c)),
  )

  get_elem?-range_nodes :
      (ns vs : List NodeConf) (m : Dict (List Pool)) (i : ℕ)
      → get_elem? (range_nodes nv cv name c ns vs m).0 i
        ≡ (if nv == i then Option.map (λ d. last_or d ns) (get_elem? vs i) else get_elem? vs i)
  unfolding range_nodes last_or
  get_elem?-range_nodes [] vs m i = ground arith
  get_elem?-range_nodes (n ∷ ns) vs m i = ground (
    arith,
    get_elem?-range_nodes ns (modify nv (λ _. n) vs) (append_at name (new_pool nv cv c) m) i,
    get_elem?-modify nv i (λ _. n) vs,
  )

  length-range_nodes :
      (ns vs : List NodeConf) (m : Dict (List Pool))
      → length (range_nodes nv cv name c ns vs m).0 ≡ length vs
  unfolding range_nodes
  length-range_nodes [] vs m = refl
  length-range_nodes (n ∷ ns) vs m = omega (
    arith,
    length-range_nodes ns (modify nv (λ _. n) vs) (append_at name (new_pool nv cv c) m),
    length-modify nv (λ _. n) vs,
  )

module _ (cv : ℕ) (name : Text) (c : ClusterConf) (ns vs : List NodeConf)
    (m : Dict (List Pool)) where
  pub slice_at-for_nodes :
      (q : Text)
      → slice_at q (for_nodes cv name c ns vs m).1 ≡ (
          if text_eq name q
          then slice_at q m ++ replicate (length ns) (new_pool (length vs) cv c)
          else slice_at q m)
  unfolding for_nodes
  slice_at-for_nodes q = slice_at-range_nodes (length vs) cv name c ns (vs ++ (zero_node ∷ [])) m q

  pub length-for_nodes : length (for_nodes cv name c ns vs m).0 ≡ length vs + 1
  unfolding for_nodes
  length-for_nodes = omega (
    arith,
    length-range_nodes (length vs) cv name c ns (vs ++ (zero_node ∷ [])) m,
    length-append vs (zero_node ∷ []),
  )

  -- Older variables are not touched.
  pub get_elem?-for_nodes_old :
      (i : ℕ) → i < length vs → get_elem? (for_nodes cv name c ns vs m).0 i ≡ get_elem? vs i
  unfolding for_nodes
  get_elem?-for_nodes_old i h = ground (
    arith,
    get_elem?-range_nodes (length vs) cv name c ns (vs ++ (zero_node ∷ [])) m i,
    get_elem?-append_left vs (zero_node ∷ []) i h,
  )

  -- The loop's own variable ends as the last node.
  pub get_elem?-for_nodes_new :
      get_elem? (for_nodes cv name c ns vs m).0 (length vs) ≡ some (last_or zero_node ns)
  unfolding for_nodes
  get_elem?-for_nodes_new = ground (
    arith,
    get_elem?-range_nodes (length vs) cv name c ns (vs ++ (zero_node ∷ [])) m (length vs),
    get_elem?-append_self vs zero_node,
  )
