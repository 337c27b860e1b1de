-- ===== src/Mysql/Load/Reload.antt =====
-- The handles of a pool over any sequence of loads, and its Close.
use motor.Base.{
  ℕ, ◌<◌, ◌≤◌, Text, Dict, Bool, refl, ◌⊎◌, inl, inr, Option, none, some, List, [], ◌∷◌, arith,
  slice_at, In,
}
use motor.Naming.Types.{Instance}
use motor.Mysql.Types.{
  MysqlConf, Source, Handle, Driver, OpMode, read, write, LoadMode, MysqlPool, State, new_pool_of,
}
use motor.Mysql.Load.{
  Loading, start, loaded, parse_file_conf, parse_naming_instance, close_loaded, close,
}
use motor.Mysql.Load.Listed.{dbs_of}
use motor.Mysql.Load.Held.{Holds, Holds-slice_at, close_map-other, close_map-kept}
use motor.Mysql.Load.Live.{
  Grows, IsBelow, IsLoading, range_file-IsLoading, range_instances-IsLoading,
}

-- One load: of the file, or of what the naming service gave; with the answers of its Opens.
pub data Load : Type 0 where
  of_file : (ℕ → Source → Bool) → MysqlConf → Load
  of_naming : (ℕ → Source → Bool) → (Text → Option MysqlConf) → List Instance → Load

unfoldable pub step : Load → State → State
step (of_file opens cfg) s = parse_file_conf opens cfg s
step (of_naming opens decode is) s = parse_naming_instance opens decode is s

unfoldable pub run : List Load → State → State
unfolding step
run [] s = s
run (c ∷ cs) s = run cs (step c s)

-- A handle stands in one of the two maps.
abbrev pub IsHeld : Handle → Option (Dict (List Handle)) → Type 0
IsHeld h none = ⊥
IsHeld h (some m) = Holds h m

-- Every handle of the maps is open, and the next attempt makes a new pointer.
pub record IsValid (s : State) : Type 0 where
  pub below : IsBelow s.driver
  pub m_open : (h : Handle) → IsHeld h s.my.m_map → In h s.driver.live
  pub s_open : (h : Handle) → IsHeld h s.my.s_map → In h s.driver.live

start-IsLoading : (d : Driver) → IsBelow d → IsLoading d.attempts d (start d)
unfolding start
start-IsLoading d b =
    (((omega arith), λ h i. i), omega arith, b, (λ h i. absurd i), λ h i. absurd i)

-- What a load gives: a state from which all that was open is open, and maps of new handles.
abbrev IsLoaded : Driver → State → Type 0
IsLoaded d s =
    IsValid s
    × Grows d s.driver
    × ((h : Handle) → IsHeld h s.my.m_map → d.attempts ≤ h.id)
    × ((h : Handle) → IsHeld h s.my.s_map → d.attempts ≤ h.id)

loaded-IsLoaded :
    (d : Driver) (my : MysqlPool) (l : Loading)
    → IsLoading d.attempts d l
    → IsLoaded d (loaded my l)
unfolding loaded
loaded-IsLoaded d my l (g, le, b, ms, ss) = (
  record { below = b; m_open = λ h i. (ms h i).1; s_open = λ h i. (ss h i).1 },
  g,
  (λ h i. (ms h i).0),
  λ h i. (ss h i).0,
)

step-IsLoaded : (c : Load) (s : State) → IsBelow s.driver → IsLoaded s.driver (step c s)
unfolding step parse_file_conf parse_naming_instance
step-IsLoaded (of_file opens cfg) s b = loaded-IsLoaded s.driver s.my _ (
    range_file-IsLoading opens s.driver.attempts s.driver s.my.idc cfg (start s.driver)
      (start-IsLoading s.driver b))
step-IsLoaded (of_naming opens decode []) s b =
    loaded-IsLoaded s.driver s.my _ (start-IsLoading s.driver b)
step-IsLoaded (of_naming opens decode (i ∷ is)) s b = loaded-IsLoaded s.driver s.my _ (
    range_instances-IsLoading opens s.driver.attempts s.driver decode s.my (i ∷ is) (start s.driver)
      (start-IsLoading s.driver b))

-- The pool that InitMysql makes, before its first load, when nothing is open.
abbrev pub new_pool : LoadMode → Text → Text → Text → State
new_pool mode product_line idc pub_env = record {
  my = new_pool_of mode product_line idc pub_env;
  driver = record { attempts = 0; live = [] };
}

pub run-IsValid : (cs : List Load) (s : State) → IsValid s → IsValid (run cs s)
unfolding run
run-IsValid [] s v = v
run-IsValid (c ∷ cs) s v = run-IsValid cs (step c s) (step-IsLoaded c s v.below).0

IsHeld-slice_at :
    (o : Option (Dict (List Handle))) (name : Text) (h : Handle)
    → In h (elim o [ none ↦ [] | some m ↦ slice_at name m ])
    → IsHeld h o
IsHeld-slice_at none name h i = i
IsHeld-slice_at (some m) name h i = Holds-slice_at h name m i

dbs_of-IsHeld :
    (mode : OpMode) (my : MysqlPool) (name : Text) (h : Handle)
    → In h (dbs_of mode my name)
    → IsHeld h my.m_map ⊎ IsHeld h my.s_map
dbs_of-IsHeld read my name h i = inr (IsHeld-slice_at my.s_map name h i)
dbs_of-IsHeld write my name h i = inl (IsHeld-slice_at my.m_map name h i)

-- After any loads of a new pool, every handle that a name has in a mode is open.
pub run-live :
    (cs : List Load) (mode : LoadMode) (product_line idc pub_env : Text) (m : OpMode) (name : Text)
    (h : Handle)
    → In h (dbs_of m (run cs (new_pool mode product_line idc pub_env)).my name)
    → In h (run cs (new_pool mode product_line idc pub_env)).driver.live
run-live cs mode product_line idc pub_env m name h i =
    let s = run cs (new_pool mode product_line idc pub_env) in
    let v =
      run-IsValid cs (new_pool mode product_line idc pub_env)
        (record { below = λ g j. absurd j; m_open = λ g j. absurd j; s_open = λ g j. absurd j }) in
    elim (dbs_of-IsHeld m s.my name h i) [ inl p ↦ v.m_open h p | inr p ↦ v.s_open h p ]

-- An open handle that is older than all of the maps.
abbrev IsOlder : Handle → State → Type 0
IsOlder h s =
    In h s.driver.live
    × ((g : Handle) → IsHeld g s.my.m_map → h.id < g.id)
    × ((g : Handle) → IsHeld g s.my.s_map → h.id < g.id)

step-IsOlder :
    (c : Load) (s : State) (h : Handle)
    → IsBelow s.driver
    → In h s.driver.live
    → IsOlder h (step c s)
step-IsOlder c s h b i =
    let (v, g, ms, ss) = step-IsLoaded c s b in
    (g.1 h i, (λ f j. omega (arith, b h i, ms f j)), λ f j. omega (arith, b h i, ss f j))

run-IsOlder :
    (cs : List Load) (s : State) (h : Handle)
    → IsBelow s.driver
    → IsOlder h s
    → IsOlder h (run cs s)
unfolding run
run-IsOlder [] s h b k = k
run-IsOlder (c ∷ cs) s h b k =
    run-IsOlder cs (step c s) h (step-IsLoaded c s b).0.below (step-IsOlder c s h b k.0)

close_loaded-other :
    (h : Handle) (o : Option (Dict (List Handle))) (live : List Handle)
    → ((g : Handle) → IsHeld g o → h.id < g.id)
    → In h live
    → In h (close_loaded o live)
unfolding close_loaded
close_loaded-other h none live lt i = i
close_loaded-other h (some m) live lt i =
    close_map-other h m live (λ g j e. omega (arith, lt g j, e)) i

close_loaded-kept :
    (h : Handle) (o : Option (Dict (List Handle))) (live : List Handle)
    → In h (close_loaded o live)
    → (¬ IsHeld h o) × In h live
unfolding close_loaded
close_loaded-kept h none live i = ((λ j. j), i)
close_loaded-kept h (some m) live i =
    let (ne, j) = close_map-kept h m live i in ((λ k. ne h k refl), j)

-- In a valid state, a handle that is open before one or more loads is open after them, behind no
-- name in any mode, and Close does not close it.
pub close-run :
    (c : Load) (cs : List Load) (s : State) (h : Handle)
    → IsValid s
    → In h s.driver.live
    → In h (run (c ∷ cs) s).driver.live
      × In h (close (run (c ∷ cs) s)).driver.live
      × ((m : OpMode) (name : Text) → ¬ In h (dbs_of m (run (c ∷ cs) s).my name))
unfolding run close
close-run c cs s h v i =
    let b = (step-IsLoaded c s v.below).0.below in
    let (j, ms, ss) = run-IsOlder cs (step c s) h b (step-IsOlder c s h v.below i) in
    let s' = run cs (step c s) in
    (
      j,
      close_loaded-other h s'.my.s_map _ ss (close_loaded-other h s'.my.m_map _ ms j),
      λ m name k. elim (dbs_of-IsHeld m s'.my name h k) [
        | inl p ↦ omega (arith, ms h p)
        | inr p ↦ omega (arith, ss h p)
      ],
    )

-- Close leaves no handle open that a name has in a mode, and opens none.
close-dbs_of :
    (s : State) (h : Handle)
    → In h (close s).driver.live
    → In h s.driver.live × ((m : OpMode) (name : Text) → ¬ In h (dbs_of m s.my name))
unfolding close
close-dbs_of s h i =
    let (not_s, j) = close_loaded-kept h s.my.s_map _ i in
    let (not_m, k) = close_loaded-kept h s.my.m_map s.driver.live j in
    (k, λ m name l. elim (dbs_of-IsHeld m s.my name h l) [ inl p ↦ not_m p | inr p ↦ not_s p ])
