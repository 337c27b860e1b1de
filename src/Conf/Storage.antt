-- ===== src/Conf/Storage.antt =====
-- conf/storage.go and conf/value.go: values by name, in whatever case the name is written.
-- A `nil` *Value is `none`; a run-time panic is `panicked`.
pub mod Changed
use motor.Base.{
  Text, Dict, ◌≡◌, ◌≢◌, refl, sym, ap, ◌∙◌, ◌⊎◌, inl, inr, Bool-cases, Option-cases, Option, none,
  some, [], ◌∷◌, arith, In, All, text_eq, text_eq_iff, to_lower, to_lower_idem, is_empty, lookup,
  insert, lookup-insert, IsKeyed, insert-IsKeyed, if◌then◌else◌,
}
use motor.Base.Outcome.{Outcome, returned, panicked, ◌>>=◌}

pub record Value : Type 0 where
  pub raw : Text

-- `none` until the first Store: an empty atomic.Value.
pub record Storage : Type 0 where
  pub values : Option (Dict Value)

unfoldable pub key_name : Text → Text
key_name key = to_lower key

pub store_loop : Dict Value → Dict Value → Dict Value
store_loop m [] = m
store_loop m ((k, v) ∷ s) = store_loop (insert (key_name k) v m) s

-- Store replaces the whole map.
unfoldable pub store : Dict Value → Storage
unfolding store_loop
store s = record { values = some (store_loop [] s) }

load_loop : Dict Value → Dict Value → Dict Value
load_loop dst [] = dst
load_loop dst ((k, v) ∷ src) = load_loop (insert k v dst) src

-- The type assertion on an empty atomic.Value panics.
unfoldable pub load : Storage → Outcome (Dict Value)
unfolding load_loop
load p = elim p.values [ none ↦ panicked | some src ↦ returned (load_loop [] src) ]

unfoldable pub get : Storage → Text → Outcome (Option Value)
get p key = do m ← load p; returned (lookup (key_name key) m)

-- A method call on a nil *Value reads a field through it, and panics.
unfoldable pub raw : Option Value → Outcome Text
unfolding is_empty
raw none = panicked
raw (some v) = if is_empty v.raw then returned [] else returned v.raw

pub raw-some : (v : Value) → raw (some v) ≡ returned v.raw
unfolding raw
raw-some v = go v.raw
  where
    go : (t : Text) → (if is_empty t then returned [] else returned t) ≡ returned t
    go [] = refl
    go (a ∷ t) = refl

-- The last entry whose name comes out as `q`.
last_named : Text → Dict Value → Option Value
last_named q [] = none
last_named q ((k, v) ∷ s) = elim (last_named q s) [
  | some w ↦ some w
  | none ↦ if text_eq (key_name k) q then some v else none
]

lookup-store_loop :
    (q : Text) (m s : Dict Value)
    → lookup q (store_loop m s) ≡ elim (last_named q s) [ none ↦ lookup q m | some w ↦ some w ]
unfolding store_loop last_named
lookup-store_loop q m [] = refl
lookup-store_loop q m ((k, v) ∷ s) =
    ground
      (arith, lookup-store_loop q (insert (key_name k) v m) s, lookup-insert (key_name k) q v m)

-- The last entry of the very key, which is what a copy of the map keeps.
last_at : Text → Dict Value → Option Value
last_at q [] = none
last_at q ((k, v) ∷ s) = elim (last_at q s) [
  | some w ↦ some w
  | none ↦ if text_eq k q then some v else none
]

lookup-load_loop :
    (q : Text) (m s : Dict Value)
    → lookup q (load_loop m s) ≡ elim (last_at q s) [ none ↦ lookup q m | some w ↦ some w ]
unfolding load_loop last_at
lookup-load_loop q m [] = refl
lookup-load_loop q m ((k, v) ∷ s) =
    ground (arith, lookup-load_loop q (insert k v m) s, lookup-insert k q v m)

store_loop-IsKeyed : (m s : Dict Value) → IsKeyed m → IsKeyed (store_loop m s)
unfolding store_loop
store_loop-IsKeyed m [] h = h
store_loop-IsKeyed m ((k, v) ∷ s) h =
    store_loop-IsKeyed (insert (key_name k) v m) s (insert-IsKeyed (key_name k) v m h)

last_at-lookup : (q : Text) (m : Dict Value) → IsKeyed m → last_at q m ≡ lookup q m
unfolding last_at lookup
last_at-lookup q [] h = refl
last_at-lookup q ((k, v) ∷ m) h = ground (arith, last_at-lookup q m h.1, text_eq_iff k q)

get-store_last :
    (s : Dict Value) (key : Text) → get (store s) key ≡ returned (last_named (key_name key) s)
unfolding get store load
get-store_last s key = ground (
  arith,
  lookup-load_loop (key_name key) [] (store_loop [] s),
  last_at-lookup (key_name key) (store_loop [] s) (store_loop-IsKeyed [] s tt),
  lookup-store_loop (key_name key) [] s,
  nothing (key_name key),
)
  where
    nothing : (q : Text) → lookup {V = Value} q [] ≡ none
    nothing q = unfold lookup in refl

-- Every entry of the map has one value for its name in any case.
abbrev pub Agrees : Text → Value → Dict Value → Type 0
Agrees q v [] = Unit
Agrees q v ((k, w) ∷ s) = (key_name k ≡ q → w ≡ v) × Agrees q v s

last_named_cases :
    (q : Text) (v : Value) (s : Dict Value)
    → Agrees q v s
    → (last_named q s ≡ none) ⊎ (last_named q s ≡ some v)
unfolding last_named
last_named_cases q v [] a = inl refl
last_named_cases q v ((j, w) ∷ s) a =
    ground (arith, last_named_cases q v s a.1, text_eq_iff (key_name j) q)

last_named-Agrees :
    (q k : Text) (v : Value) (s : Dict Value)
    → In (k, v) s
    → key_name k ≡ q
    → Agrees q v s
    → last_named q s ≡ some v
unfolding last_named
last_named-Agrees q k v [] h e a = absurd h
last_named-Agrees q k v ((j, w) ∷ s) (inl h) e a = ground (
  arith,
  last_named_cases q v s a.1,
  text_eq_iff (key_name j) q,
  ap (λ (p : Text × Value). p.0) h,
  ap (λ (p : Text × Value). p.1) h,
)
last_named-Agrees q k v ((j, w) ∷ s) (inr h) e a = ground (arith, last_named-Agrees q k v s h e a.1)

last_named-none :
    (q : Text) (s : Dict Value)
    → All (λ (p : Text × Value). key_name p.0 ≢ q) s
    → last_named q s ≡ none
unfolding last_named
last_named-none q [] h = refl
last_named-none q ((j, w) ∷ s) h =
    ground (arith, last_named-none q s h.1, text_eq_iff (key_name j) q, h.0)

-- Get finds what Store was given under a key, in any case of the key, if all entries whose names
-- differ from it in case only have that value.
pub get-store :
    (s : Dict Value) (key k : Text) (v : Value)
    → In (k, v) s
    → key_name k ≡ key_name key
    → Agrees (key_name key) v s
    → get (store s) key ≡ returned (some v)
get-store s key k v h e a =
    ground (arith, get-store_last s key, last_named-Agrees (key_name key) k v s h e a)

-- Get of a name that no key has is nil.
pub get-store_missing :
    (s : Dict Value) (key : Text)
    → All (λ (p : Text × Value). key_name p.0 ≢ key_name key) s
    → get (store s) key ≡ returned none
get-store_missing s key h = ground (arith, get-store_last s key, last_named-none (key_name key) s h)

-- Names are read in any case.
pub get-key_name : (p : Storage) (key : Text) → get p (key_name key) ≡ get p key
unfolding get key_name
get-key_name p key = rw (to_lower_idem key)

-- Names that are in lower case already.
abbrev pub IsLower : Dict Value → Type 0
IsLower [] = Unit
IsLower ((k, v) ∷ m) = (key_name k ≡ k) × IsLower m

pub insert-IsLower :
    (k : Text) (v : Value) (m : Dict Value) → key_name k ≡ k → IsLower m → IsLower (insert k v m)
unfolding insert
insert-IsLower k v [] e h = (e, tt)
insert-IsLower k v ((j, w) ∷ m) e h = ground (arith, insert-IsLower k v m e h.1, h.0, e)

last_named-lookup :
    (q : Text) (m : Dict Value) → IsKeyed m → IsLower m → last_named q m ≡ lookup q m
unfolding last_named lookup
last_named-lookup q [] h l = refl
last_named-lookup q ((k, v) ∷ m) h l =
    ground (arith, last_named-lookup q m h.1 l.1, text_eq_iff k q, l.0, h.0)

-- Of a map whose names are in lower case Get finds what the map has.
pub get-store_lower :
    (m : Dict Value) (key : Text)
    → IsKeyed m
    → IsLower m
    → get (store m) key ≡ returned (lookup (key_name key) m)
get-store_lower m key h l = get-store_last m key ∙ rw (last_named-lookup (key_name key) m h l) refl
