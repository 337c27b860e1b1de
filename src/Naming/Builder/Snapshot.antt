-- ===== src/Naming/Builder/Snapshot.antt =====
-- What a resolver fetches: the instances of its service in the last answer that was understood.
use motor.Base.{
  Text, lit, true, ◌≡◌, refl, ap, sym, ◌∙◌, ◌⊎◌, inl, inr, Option, none, some, List, [], ◌∷◌, ◌++◌,
  arith, lookup, lookup-insert, slice_at, append_at, slice_at-append_at, text_eq, text_eq_refl,
  Bool-cases, Option-cases, if◌then◌else◌,
}
use mathlib.Core.List.{append_assoc, append-nil}
use motor.Naming.Types.{Instance, InstancesInfo, ServerInfo, EtcdBuilder, ok, err, bad_instance}
use motor.Naming.Builder.{parse_loop, parse_ins, store, getstore, fetch, store_parsed}

-- The values of an answer are the instances, one for one.
abbrev pub Decodes : (Text → Option Instance) → List (Text × Text) → List Instance → Type 0
Decodes decode [] [] = Unit
Decodes decode (kv ∷ kvs) (i ∷ is) = (decode kv.1 ≡ some i) × Decodes decode kvs is
Decodes decode _ _ = ⊥

-- Some value of the answer is no instance.
abbrev pub Malformed : (Text → Option Instance) → List (Text × Text) → Type 0
Malformed decode [] = ⊥
Malformed decode (kv ∷ kvs) = (decode kv.1 ≡ none) ⊎ Malformed decode kvs

-- The instances of one name, in order.
unfoldable pub named : Text → List Instance → List Instance
named sn [] = []
named sn (i ∷ is) = let rest = named sn is in if text_eq i.name sn then i ∷ rest else rest

pub fetch-store :
    (sn : Text) (ins : InstancesInfo) (e : EtcdBuilder) (srv : ServerInfo)
    → lookup sn e.servers ≡ some srv
    → fetch sn (store sn ins e) ≡ (slice_at sn ins, true)
unfolding fetch store
fetch-store sn ins e srv known =
    ground (arith, lookup-insert sn sn (record srv { ins = some ins }) e.servers, text_eq_refl sn)

module _ (decode : Text → Option Instance) where
  slice_at-step :
      (m : InstancesInfo) (sn : Text) (i : Instance) (is : List Instance)
      → slice_at sn (append_at i.name i m) ++ named sn is ≡ slice_at sn m ++ named sn (i ∷ is)
  unfolding named
  slice_at-step m sn i is = elim (Bool-cases (text_eq i.name sn)) [
    | inl e ↦
        rw (slice_at-append_at i.name sn i m, e)
          (append_assoc (slice_at sn m) (i ∷ []) (named sn is))
    | inr e ↦ rw (slice_at-append_at i.name sn i m, e)
  ]

  parse_loop-Decodes :
      (m : InstancesInfo) (kvs : List (Text × Text)) (is : List Instance)
      → Decodes decode kvs is
      → (m' : InstancesInfo) × (parse_loop decode m kvs ≡ ok m')
        × ((sn : Text) → slice_at sn m' ≡ slice_at sn m ++ named sn is)
  unfolding parse_loop
  parse_loop-Decodes m [] [] d = (m, refl, λ sn. unfold named in sym (append-nil (slice_at sn m)))
  parse_loop-Decodes m [] (i ∷ is) d = absurd d
  parse_loop-Decodes m (kv ∷ kvs) [] d = absurd d
  parse_loop-Decodes m ((k, v) ∷ kvs) (i ∷ is) (d, ds) =
      let (m', p, q) = parse_loop-Decodes (append_at i.name i m) kvs is ds in
      (m', rw (d, parse_loop) p, λ sn. q sn ∙ slice_at-step m sn i is)

  parse_loop-Malformed :
      (m : InstancesInfo) (kvs : List (Text × Text))
      → Malformed decode kvs
      → parse_loop decode m kvs ≡ err bad_instance
  unfolding parse_loop
  parse_loop-Malformed m [] b = absurd b
  parse_loop-Malformed m ((k, v) ∷ kvs) b = elim (Option-cases (decode v)) [
    | inl e ↦ rw (e, parse_loop)
    | inr (i, e) ↦
        rw (e, parse_loop) (parse_loop-Malformed (append_at i.name i m) kvs (later i e b))
  ]
    where
      later :
          (i : Instance)
          → decode v ≡ some i
          → Malformed decode ((k, v) ∷ kvs)
          → Malformed decode kvs
      later i e (inl n) = cc
      later i e (inr b') = b'

  -- When every value of an answer to the watch of a known service is an instance, Fetch gives
  -- those of them whose name is the service, in order, though the answer may hold instances of
  -- other services.
  pub fetch-getstore :
      (sn : Text) (kvs : List (Text × Text)) (is : List Instance) (e : EtcdBuilder)
      (srv : ServerInfo)
      → lookup sn e.servers ≡ some srv
      → Decodes decode kvs is
      → fetch sn (getstore decode (lit "watch") sn (some kvs) e) ≡ (named sn is, true)
  unfolding getstore text_eq slice_at lookup
  fetch-getstore sn kvs is e srv known d =
      let (m, p, q) = parse_loop-Decodes [] kvs is d in
      let parsed : parse_ins decode kvs ≡ ok m = unfold parse_ins in p in
      rw (parsed, store_parsed) (fetch-store sn m e srv known ∙ ap (λ x. (x, true)) (q sn))

  -- A refresh whose Get fails, or that has a value which is no instance, changes nothing.
  getstore-failed :
      (typ sn : Text) (kvs : List (Text × Text)) (e : EtcdBuilder)
      → Malformed decode kvs
      → (getstore decode typ sn none e ≡ e) × (getstore decode typ sn (some kvs) e ≡ e)
  unfolding getstore parse_ins
  getstore-failed typ sn kvs e b = (refl, ground (arith, parse_loop-Malformed [] kvs b))
