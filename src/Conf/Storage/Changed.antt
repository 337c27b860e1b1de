-- ===== src/Conf/Storage/Changed.antt =====
-- What Get finds after one name of a map has changed.
use motor.Base.{
  Text, Dict, ◌≡◌, ◌≢◌, refl, sym, ap, ◌∙◌, inl, inr, Bool-cases, Option-cases, some, [], ◌∷◌,
  arith, text_eq, text_eq_iff, insert,
}
use motor.Base.Outcome.{returned}
use motor.Conf.Storage.{Value, key_name, store, get, last_named, get-store_last}

last_named-insert :
    (q k : Text) (v : Value) (m : Dict Value)
    → key_name k ≢ q
    → last_named q (insert k v m) ≡ last_named q m
unfolding last_named insert
last_named-insert q k v [] h = ground (arith, text_eq_iff (key_name k) q, h)
last_named-insert q k v ((j, w) ∷ m) h = ground (
  arith,
  last_named-insert q k v m h,
  text_eq_iff (key_name k) q,
  text_eq_iff (key_name j) q,
  text_eq_iff j k,
  h,
)

-- Get of a name finds the same after a change of a name that is another in every case.
pub get-store_other :
    (k : Text) (v : Value) (m : Dict Value) (key : Text)
    → key_name k ≢ key_name key
    → get (store (insert k v m)) key ≡ get (store m) key
get-store_other k v m key h =
    get-store_last (insert k v m) key
    ∙ ap returned (last_named-insert (key_name key) k v m h)
    ∙ sym (get-store_last m key)

last_named-insert_own :
    (q k : Text) (v : Value) (m : Dict Value)
    → key_name k ≡ q
    → (w : Value) × (last_named q (insert k v m) ≡ some w)
unfolding last_named insert
last_named-insert_own q k v [] h = (v, ground (arith, text_eq_iff (key_name k) q, h))
last_named-insert_own q k v ((j, w) ∷ m) h = elim (Bool-cases (text_eq j k)) [
  | inl e ↦ rw e (elim (Option-cases (last_named q m)) [
    | inl none' ↦ (v, ground (arith, none', text_eq_iff (key_name k) q, h))
    | inr (u, found) ↦ (u, rw found refl)
  ])
  | inr e ↦ let (u, found) = last_named-insert_own q k v m h in (u, rw (e, last_named, found) refl)
]

-- Get of a name finds a value once that name, in any case, has been changed.
pub get-store_own :
    (k : Text) (v : Value) (m : Dict Value) (key : Text)
    → key_name k ≡ key_name key
    → (w : Value) × (get (store (insert k v m)) key ≡ returned (some w))
get-store_own k v m key h =
    let (w, found) = last_named-insert_own (key_name key) k v m h in
    (w, get-store_last (insert k v m) key ∙ ap returned found)
