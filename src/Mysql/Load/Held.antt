-- ===== src/Mysql/Load/Held.antt =====
-- The handles that a map holds, and what closing them leaves open.
use motor.Base.{
  ℕ, Text, Dict, ◌≡◌, ◌≢◌, refl, ap, sym, subst, ◌∙◌, ◌⊎◌, inl, inr, List, [], ◌∷◌, ◌++◌, arith,
  lookup, slice_at, append_at, insert, text_eq, Bool-cases, ◌==◌, In, In-append_cases,
}
use motor.Mysql.Types.{Handle}
use motor.Mysql.Load.{close_db, close_dbs, close_map}

-- A handle stands in a map, behind some name.
abbrev pub Holds : Handle → Dict (List Handle) → Type 0
Holds h [] = ⊥
Holds h ((name, dbs) ∷ m) = In h dbs ⊎ Holds h m

pub Holds-slice_at :
    (h : Handle) (j : Text) (m : Dict (List Handle)) → In h (slice_at j m) → Holds h m
unfolding slice_at lookup
Holds-slice_at h j [] i = absurd i
Holds-slice_at h j ((k, dbs) ∷ m) i = elim (Bool-cases (text_eq k j)) [
  | inl e ↦ inl (subst (In h) (rw (e, slice_at, lookup) refl) i)
  | inr e ↦ inr (Holds-slice_at h j m (subst (In h) (rw (e, slice_at, lookup) refl) i))
]

Holds-insert :
    (h : Handle) (k : Text) (dbs : List Handle) (m : Dict (List Handle))
    → Holds h (insert k dbs m)
    → In h dbs ⊎ Holds h m
unfolding insert
Holds-insert h k dbs [] i = i
Holds-insert h k dbs ((j, hs) ∷ m) i = elim (Bool-cases (text_eq j k)) [
  | inl e ↦
      let q : insert k dbs ((j, hs) ∷ m) ≡ (k, dbs) ∷ m = rw (e, insert) refl in
      elim (subst (Holds h) q i) [ inl p ↦ inl p | inr p ↦ inr (inr p) ]
  | inr e ↦
      let q : insert k dbs ((j, hs) ∷ m) ≡ (j, hs) ∷ insert k dbs m = rw (e, insert) refl in
      elim (subst (Holds h) q i) [
        | inl p ↦ inr (inl p)
        | inr p ↦ elim (Holds-insert h k dbs m p) [ inl q ↦ inl q | inr q ↦ inr (inr q) ]
      ]
]

pub Holds-append_at :
    (h : Handle) (k : Text) (db : Handle) (m : Dict (List Handle))
    → Holds h (append_at k db m)
    → Holds h m ⊎ (h ≡ db)
unfolding append_at
Holds-append_at h k db m i = elim (Holds-insert h k (slice_at k m ++ (db ∷ [])) m i) [
  | inl p ↦ elim (In-append_cases h (slice_at k m) (db ∷ []) p) [
    | inl q ↦ inl (Holds-slice_at h k m q)
    | inr (inl q) ↦ inr q
    | inr (inr q) ↦ absurd q
  ]
  | inr p ↦ inl p
]

-- Close takes away those ids alone that it is given.
close_db-other :
    (n : ℕ) (h : Handle) (live : List Handle) → n ≢ h.id → In h live → In h (close_db n live)
unfolding close_db
close_db-other n h [] ne i = absurd i
close_db-other n h (g ∷ gs) ne (inl q) = elim (Bool-cases (n == g.id)) [
  | inl e ↦ absurd (ne (ground (arith, e, ap (λ (x : Handle). x.id) q)))
  | inr e ↦ rw (e, close_db) (inl q)
]
close_db-other n h (g ∷ gs) ne (inr i) = elim (Bool-cases (n == g.id)) [
  | inl e ↦ rw (e, close_db) (close_db-other n h gs ne i)
  | inr e ↦ rw (e, close_db) (inr (close_db-other n h gs ne i))
]

close_dbs-other :
    (h : Handle) (dbs live : List Handle)
    → ((g : Handle) → In g dbs → g.id ≢ h.id)
    → In h live
    → In h (close_dbs dbs live)
unfolding close_dbs
close_dbs-other h [] live ne i = i
close_dbs-other h (g ∷ gs) live ne i =
    close_dbs-other h gs _ (λ f j. ne f (inr j)) (close_db-other g.id h live (ne g (inl refl)) i)

pub close_map-other :
    (h : Handle) (m : Dict (List Handle)) (live : List Handle)
    → ((g : Handle) → Holds g m → g.id ≢ h.id)
    → In h live
    → In h (close_map m live)
unfolding close_map
close_map-other h [] live ne i = i
close_map-other h ((name, dbs) ∷ m) live ne i =
    close_map-other h m _ (λ g j. ne g (inr j)) (close_dbs-other h dbs live (λ g j. ne g (inl j)) i)

close_db-kept :
    (n : ℕ) (h : Handle) (live : List Handle) → In h (close_db n live) → (n ≢ h.id) × In h live
unfolding close_db
close_db-kept n h [] i = absurd i
close_db-kept n h (g ∷ gs) i = elim (Bool-cases (n == g.id)) [
  | inl e ↦
      let q : close_db n (g ∷ gs) ≡ close_db n gs = rw (e, close_db) refl in
      let (ne, j) = close_db-kept n h gs (subst (In h) q i) in (ne, inr j)
  | inr e ↦
      let q : close_db n (g ∷ gs) ≡ g ∷ close_db n gs = rw (e, close_db) refl in
      elim (subst (In h) q i) [
        | inl r ↦ ((λ f. absurd (ground (arith, e, f, ap (λ (x : Handle). x.id) r))), inl r)
        | inr j ↦ let (ne, k) = close_db-kept n h gs j in (ne, inr k)
      ]
]

close_dbs-kept :
    (h : Handle) (dbs live : List Handle)
    → In h (close_dbs dbs live)
    → ((g : Handle) → In g dbs → g.id ≢ h.id) × In h live
unfolding close_dbs
close_dbs-kept h [] live i = ((λ g j. absurd j), i)
close_dbs-kept h (d ∷ ds) live i =
    let (rest, j) = close_dbs-kept h ds (close_db d.id live) i in
    let (ne, k) = close_db-kept d.id h live j in
    (
      (λ g p. elim p [
        | inl q ↦ λ f. ne (sym (ap (λ (x : Handle). x.id) q) ∙ f)
        | inr q ↦ rest g q
      ]),
      k,
    )

pub close_map-kept :
    (h : Handle) (m : Dict (List Handle)) (live : List Handle)
    → In h (close_map m live)
    → ((g : Handle) → Holds g m → g.id ≢ h.id) × In h live
unfolding close_map
close_map-kept h [] live i = ((λ g j. absurd j), i)
close_map-kept h ((name, dbs) ∷ m) live i =
    let (rest, j) = close_map-kept h m (close_dbs dbs live) i in
    let (mine, k) = close_dbs-kept h dbs live j in
    ((λ g p. elim p [ inl q ↦ mine g q | inr q ↦ rest g q ]), k)
