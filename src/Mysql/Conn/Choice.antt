-- ===== src/Mysql/Conn/Choice.antt =====
-- Which handle a caller gets, and that it is open.
use motor.Base.{
  ℕ, ◌<◌, ◌≡◌, ◌⊎◌, inl, inr, refl, Text, Dict, Option, none, some, List, [], ◌∷◌, arith, In,
  length, get_elem?-In, get_elem?_total, lookup, slice_at,
}
use motor.Base.Outcome.{Outcome, returned}
use motor.Mysql.Types.{Handle, MysqlPool, LoadMode, OpMode, read, write}
use motor.Mysql.Load.Listed.{dbs_of}
use motor.Mysql.Load.Reload.{Load, run, new_pool, run-live}
use motor.Mysql.Conn.{get_db, ok, err, uninitialized, no_such_db, Result, from_map, choose}

-- What rand.Intn promises.
abbrev pub IsIntn : (ℕ → ℕ) → Type 0
IsIntn rand_intn = (n : ℕ) → 0 < n → rand_intn n < n

-- One of the handles, or an error exactly when there are none; never a panic.
abbrev pub Picks : List Handle → Outcome (Result Handle) → Type 0
Picks dbs r =
    ((dbs ≡ []) × ((r ≡ returned (err uninitialized)) ⊎ (r ≡ returned (err no_such_db))))
    ⊎ ((db : Handle) × (r ≡ returned (ok db)) × In db dbs)

module _ (rand_intn : ℕ → ℕ) (law : IsIntn rand_intn) where
  choose-Picks : (dbs : List Handle) → Picks dbs (choose rand_intn (some dbs))
  unfolding choose
  choose-Picks [] = inl (refl, inr refl)
  choose-Picks (d ∷ ds) =
      let i = rand_intn (length (d ∷ ds)) in
      let (db, here) = get_elem?_total (d ∷ ds) i (law (length (d ∷ ds)) (omega arith)) in
      inr (db, ground (arith, here), get_elem?-In (d ∷ ds) i db here)

  lookup-Picks :
      (name : Text) (m : Dict (List Handle)) (o : Option (List Handle))
      → lookup name m ≡ o
      → Picks (slice_at name m) (choose rand_intn (lookup name m))
  unfolding slice_at
  lookup-Picks name m none e = rw (e, slice_at) (inl (refl, inr (unfold choose in refl)))
  lookup-Picks name m (some dbs) e = rw (e, slice_at) (choose-Picks dbs)

  from_map-Picks :
      (name : Text) (o : Option (Dict (List Handle)))
      → Picks (elim o [ none ↦ [] | some m ↦ slice_at name m ]) (from_map rand_intn name o)
  unfolding from_map
  from_map-Picks name none = inl (refl, inl refl)
  from_map-Picks name (some m) = lookup-Picks name m (lookup name m) refl

  get_db-Picks :
      (my : MysqlPool) (name : Text) (m : OpMode)
      → Picks (dbs_of m my name) (get_db rand_intn my name m)
  unfolding get_db
  get_db-Picks my name read = from_map-Picks name my.s_map
  get_db-Picks my name write = from_map-Picks name my.m_map

  -- After any loads of a new pool, and with a rand.Intn below its argument, getDB does not panic:
  -- it gives one of the handles that the name has in the mode, and that handle is open; it is an
  -- error exactly when there is none.
  pub get_db-run :
      (cs : List Load) (mode : LoadMode) (product_line idc pub_env : Text) (m : OpMode)
      (name : Text)
      → let s = run cs (new_pool mode product_line idc pub_env) in
        ((dbs_of m s.my name ≡ [])
          × ((get_db rand_intn s.my name m ≡ returned (err uninitialized))
              ⊎ (get_db rand_intn s.my name m ≡ returned (err no_such_db))))
        ⊎ ((db : Handle) × (get_db rand_intn s.my name m ≡ returned (ok db))
            × In db (dbs_of m s.my name)
            × In db s.driver.live)
  get_db-run cs mode product_line idc pub_env m name =
      let s = run cs (new_pool mode product_line idc pub_env) in
      elim (get_db-Picks s.my name m) [
        | inl p ↦ inl p
        | inr (db, got, i) ↦ inr (db, got, i, run-live cs mode product_line idc pub_env m name db i)
      ]
