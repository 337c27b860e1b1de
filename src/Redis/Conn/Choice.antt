-- ===== src/Redis/Conn/Choice.antt =====
-- Which pool a caller gets.
use motor.Base.{
  ℕ, ◌<◌, ◌≡◌, ◌⊎◌, inl, inr, refl, Text, Dict, Option, none, some, List, [], ◌∷◌, arith, In,
  length, get_elem?-In, get_elem?_total, lookup, slice_at,
}
use motor.Base.Outcome.{Outcome, returned}
use motor.Redis.Types.{RedisConf, Pool, RedisPool, OpMode, read, write}
use motor.Redis.Load.{parse_naming_instance}
use motor.Redis.Load.Capture.{pools_of}
use motor.Redis.Conn.{
  get_conn, conn_of, ok, err, uninitialized, no_such_pool, Result, from_map, choose,
}

-- What rand.Intn promises.
abbrev pub IsIntn : (ℕ → ℕ) → Type 0
IsIntn rand_intn = (n : ℕ) → 0 < n → rand_intn n < n

-- One of the pools, or an error exactly when there are none; never a panic.
abbrev pub Picks : List Pool → Outcome (Result Pool) → Type 0
Picks pools r =
    ((pools ≡ []) × ((r ≡ returned (err uninitialized)) ⊎ (r ≡ returned (err no_such_pool))))
    ⊎ ((p : Pool) × (r ≡ returned (ok p)) × In p pools)

module _ (rand_intn : ℕ → ℕ) (law : IsIntn rand_intn) where
  choose-Picks : (pools : List Pool) → Picks pools (choose rand_intn (some pools))
  unfolding choose
  choose-Picks [] = inl (refl, inr refl)
  choose-Picks (q ∷ qs) =
      let i = rand_intn (length (q ∷ qs)) in
      let (p, here) = get_elem?_total (q ∷ qs) i (law (length (q ∷ qs)) (omega arith)) in
      inr (p, ground (arith, here), get_elem?-In (q ∷ qs) i p here)

  lookup-Picks :
      (name : Text) (m : Dict (List Pool)) (o : Option (List Pool))
      → lookup name m ≡ o
      → Picks (slice_at name m) (choose rand_intn (lookup name m))
  unfolding slice_at
  lookup-Picks name m none e = rw (e, slice_at) (inl (refl, inr (unfold choose in refl)))
  lookup-Picks name m (some pools) e = rw (e, slice_at) (choose-Picks pools)

  from_map-Picks :
      (name : Text) (o : Option (Dict (List Pool)))
      → Picks (elim o [ none ↦ [] | some m ↦ slice_at name m ]) (from_map rand_intn name o)
  unfolding from_map
  from_map-Picks name none = inl (refl, inl refl)
  from_map-Picks name (some m) = lookup-Picks name m (lookup name m) refl

  -- With a rand.Intn whose result is below its argument, getConn does not panic: it gives one of
  -- the pools of the cluster for the mode, and an error exactly when there is none.
  get_conn-Picks :
      (redi : RedisPool) (name : Text) (m : OpMode)
      → Picks (pools_of m redi name) (get_conn rand_intn redi name m)
  unfolding get_conn
  get_conn-Picks redi name read = from_map-Picks name redi.s_map
  get_conn-Picks redi name write = from_map-Picks name redi.m_map

-- After a load with no instances GetConn gives nil for every cluster in both modes.
conn_of-deleted :
    (rand_intn : ℕ → ℕ) (decode : Text → Option RedisConf) (redi : RedisPool) (name : Text)
    (m : OpMode)
    → conn_of rand_intn (some (parse_naming_instance decode [] redi)) name m ≡ returned none
unfolding conn_of get_conn parse_naming_instance lookup
conn_of-deleted rand_intn decode redi name read = refl
conn_of-deleted rand_intn decode redi name write = refl
