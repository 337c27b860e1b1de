-- ===== src/Base/Dicts.antt =====
-- Go maps with string keys, as association lists; the list's order is the order in which a
-- `range` loop meets the entries, which Go leaves open.
use mathlib.Core.Path.{◌≡◌, refl}
use mathlib.Core.List.{List, [], ◌∷◌, ◌++◌}
use mathlib.Core.Option.{Option, none, some}
use native.Mathlib.Omega.{arith}
use motor.Base.Tests.{if◌then◌else◌}
use motor.Base.Texts.{Text, text_eq, text_eq_iff}

abbrev pub Dict {ℓ} : Type ℓ → Type ℓ
Dict V = List (Text × V)

module _ {ℓ} {V : Type ℓ} where
  -- v, ok := m[k]
  unfoldable pub lookup : Text → Dict V → Option V
  lookup k [] = none
  lookup k ((j, v) ∷ m) = if text_eq j k then some v else lookup k m

  -- m[k] = v
  unfoldable pub insert : Text → V → Dict V → Dict V
  insert k v [] = (k, v) ∷ []
  insert k v ((j, w) ∷ m) = if text_eq j k then (k, v) ∷ m else (j, w) ∷ insert k v m

  -- delete(m, k)
  unfoldable pub remove : Text → Dict V → Dict V
  remove k [] = []
  remove k ((j, w) ∷ m) = let rest = remove k m in if text_eq j k then rest else (j, w) ∷ rest

  pub lookup-insert :
      (k j : Text) (v : V) (m : Dict V)
      → lookup j (insert k v m) ≡ (if text_eq k j then some v else lookup j m)
  unfolding lookup insert
  lookup-insert k j v [] = refl
  lookup-insert k j v ((i, w) ∷ m) =
      ground (arith, text_eq_iff k j, text_eq_iff i k, text_eq_iff i j, lookup-insert k j v m)

  pub lookup-remove :
      (k j : Text) (m : Dict V) → lookup j (remove k m) ≡ (if text_eq k j then none else lookup j m)
  unfolding lookup remove
  lookup-remove k j [] = ground arith
  lookup-remove k j ((i, w) ∷ m) =
      ground (arith, lookup-remove k j m, text_eq_iff i k, text_eq_iff i j, text_eq_iff k j)

-- For a map of slices: the zero value of a missing key is the empty slice.
unfoldable pub slice_at {ℓ} : {A : Type ℓ} → Text → Dict (List A) → List A
slice_at k m = elim (lookup k m) [ none ↦ [] | some xs ↦ xs ]

-- m[k] = append(m[k], a)
unfoldable pub append_at {ℓ} : {A : Type ℓ} → Text → A → Dict (List A) → Dict (List A)
append_at k a m = insert k (slice_at k m ++ (a ∷ [])) m

pub slice_at-append_at {ℓ} :
    {A : Type ℓ} (k j : Text) (a : A) (m : Dict (List A))
    → slice_at j (append_at k a m)
      ≡ (if text_eq k j then slice_at j m ++ (a ∷ []) else slice_at j m)
unfolding slice_at append_at
slice_at-append_at k j a m =
    ground (arith, lookup-insert k j (slice_at k m ++ (a ∷ [])) m, text_eq_iff k j)

module _ {V : Type 0} where
  -- No key stands twice.
  abbrev pub IsKeyed : Dict V → Type 0
  IsKeyed [] = Unit
  IsKeyed ((k, v) ∷ m) = (lookup k m ≡ none) × IsKeyed m

  pub insert-IsKeyed : (k : Text) (v : V) (m : Dict V) → IsKeyed m → IsKeyed (insert k v m)
  unfolding insert lookup
  insert-IsKeyed k v [] h = (refl, tt)
  insert-IsKeyed k v ((j, w) ∷ m) h =
      ground
        (arith, insert-IsKeyed k v m h.1, lookup-insert k j v m, text_eq_iff k j, text_eq_iff j k)
