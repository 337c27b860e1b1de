-- ===== src/Conf/Toml.antt =====
-- conf/toml.go: a Storage that is set from the text of a TOML document.
use motor.Base.{
  Text, Dict, Bool, true, false, ◌≡◌, ◌⊎◌, inl, inr, refl, sym, ap, subst, ◌∙◌, Option, none, some,
  [], ◌∷◌, arith, text_eq, to_lower_idem, lookup, insert, lookup-insert, IsKeyed, insert-IsKeyed,
  if◌then◌else◌, Option-cases,
}
use motor.Base.Outcome.{returned}
use motor.Conf.Storage.{
  Value, Storage, key_name, store, get, IsLower, insert-IsLower, get-store_lower,
}

-- A value of the document by its reflect.Kind; V are the values that the TOML library makes.
pub data TomlValue (V : Type 0) : Type 0 where
  map_value slice_value bool_value int64_value float64_value other_value : V → TomlValue V
  string_value : Text → TomlValue V

-- toml.Unmarshal, the encoder's Encode of a table and of a key with its array, and strconv.
pub record Codec (V : Type 0) : Type 0 where
  pub unmarshal : Text → Option (Dict (TomlValue V))
  pub encode_map : V → Option Text
  pub encode_slice : Text → V → Option Text
  pub format_bool : V → Text
  pub format_int : V → Text
  pub format_float : V → Text

module _ {V : Type 0} (codec : Codec V) where
  -- The cases of the switch, for a name that KeyName has been applied to; `none` is an error.
  unfoldable pub text_of : Text → TomlValue V → Option Text
  text_of k (map_value v) = codec.encode_map v
  text_of k (slice_value v) = codec.encode_slice k v
  text_of k (bool_value v) = some (codec.format_bool v)
  text_of k (int64_value v) = some (codec.format_int v)
  text_of k (float64_value v) = some (codec.format_float v)
  text_of k (string_value s) = some s
  text_of k (other_value v) = none

  pub values_of : Dict (TomlValue V) → Dict Value → Option (Dict Value)
  values_of [] values = some values
  values_of ((k, v) ∷ raws) values = elim (text_of (key_name k) v) [
    | none ↦ none
    | some t ↦ values_of raws (insert (key_name k) (record { raw = t }) values)
  ]

  finish : Option (Dict Value) → Storage → Bool × Storage
  finish none m = (false, m)
  finish (some values) m = (true, store values)

  -- UnmarshalText: whether there is no error, and the storage after it.
  unfoldable pub unmarshal_text : Text → Storage → Bool × Storage
  unfolding values_of finish
  unmarshal_text text m = elim (codec.unmarshal text) [
    | none ↦ (false, m)
    | some raws ↦ finish (values_of raws []) m
  ]

  -- Set
  unfoldable pub set : Text → Storage → Bool × Storage
  unfolding unmarshal_text
  set text m = unmarshal_text text m

  -- The last value of the document under a name in any case, as text.
  unfoldable pub last_text : Text → Dict (TomlValue V) → Option Text
  last_text q [] = none
  last_text q ((k, v) ∷ raws) = elim (last_text q raws) [
    | some t ↦ some t
    | none ↦ if text_eq (key_name k) q then text_of (key_name k) v else none
  ]

  -- A value that the encoder refuses, or of another kind than the six.
  abbrev pub HasNoText : Text → TomlValue V → Type 0
  HasNoText k (map_value v) = codec.encode_map v ≡ none
  HasNoText k (slice_value v) = codec.encode_slice k v ≡ none
  HasNoText k (bool_value v) = ⊥
  HasNoText k (int64_value v) = ⊥
  HasNoText k (float64_value v) = ⊥
  HasNoText k (string_value s) = ⊥
  HasNoText k (other_value v) = Unit

  text_of-none : (k : Text) (v : TomlValue V) → text_of k v ≡ none → HasNoText k v
  unfolding text_of
  text_of-none k (map_value v) e = e
  text_of-none k (slice_value v) e = e
  text_of-none k (bool_value v) e = cc
  text_of-none k (int64_value v) e = cc
  text_of-none k (float64_value v) e = cc
  text_of-none k (string_value s) e = cc
  text_of-none k (other_value v) e = tt

  text_of-some : (k t : Text) (v : TomlValue V) → text_of k v ≡ some t → ¬ HasNoText k v
  unfolding text_of
  text_of-some k t (map_value v) e h = cc (e, h)
  text_of-some k t (slice_value v) e h = cc (e, h)
  text_of-some k t (bool_value v) e h = h
  text_of-some k t (int64_value v) e h = h
  text_of-some k t (float64_value v) e h = h
  text_of-some k t (string_value s) e h = h
  text_of-some k t (other_value v) e h = cc

  -- Some value of the document has no text.
  abbrev pub Fails : Dict (TomlValue V) → Type 0
  Fails [] = ⊥
  Fails ((k, v) ∷ raws) = HasNoText (key_name k) v ⊎ Fails raws

  abbrev pub as_value : Option Text → Option Value
  as_value none = none
  as_value (some t) = some (record { raw = t })

  abbrev or_else : Option Value → Option Value → Option Value
  or_else none v = v
  or_else (some w) v = some w

  -- The map that the loop makes, or why it makes none.
  abbrev Made : Dict (TomlValue V) → Dict Value → Option (Dict Value) → Type 0
  Made raws m none = Fails raws
  Made raws m (some values) =
      (¬ Fails raws)
      × IsKeyed values
      × IsLower values
      × ((q : Text) → lookup q values ≡ or_else (as_value (last_text q raws)) (lookup q m))

  last_text-cons :
      (k q t : Text) (v : TomlValue V) (raws : Dict (TomlValue V)) (m : Dict Value)
      → text_of (key_name k) v ≡ some t
      → or_else
          (as_value (last_text q raws))
          (lookup q (insert (key_name k) (record { raw = t }) m))
        ≡ or_else (as_value (last_text q ((k, v) ∷ raws))) (lookup q m)
  unfolding last_text
  last_text-cons k q t v raws m e =
      ground (arith, e, lookup-insert (key_name k) q (record { raw = t }) m)

  Made-step :
      (k t : Text) (v : TomlValue V) (raws : Dict (TomlValue V)) (m : Dict Value)
      (o : Option (Dict Value))
      → text_of (key_name k) v ≡ some t
      → Made raws (insert (key_name k) (record { raw = t }) m) o
      → Made ((k, v) ∷ raws) m o
  Made-step k t v raws m none e h = inr h
  Made-step k t v raws m (some values) e (fine, keyed, lower, found) = (
    λ f. elim f [ inl bad ↦ text_of-some (key_name k) t v e bad | inr later ↦ fine later ],
    keyed,
    lower,
    λ q. found q ∙ last_text-cons k q t v raws m e,
  )

  values_of-Made :
      (raws : Dict (TomlValue V)) (m : Dict Value)
      → IsKeyed m
      → IsLower m
      → Made raws m (values_of raws m)
  unfolding values_of
  values_of-Made [] m keyed lower = (λ f. f, keyed, lower, λ q. unfold last_text in refl)
  values_of-Made ((k, v) ∷ raws) m keyed lower = elim (Option-cases (text_of (key_name k) v)) [
    | inl e ↦
        let q : values_of ((k, v) ∷ raws) m ≡ none = rw (e, values_of) refl in
        subst (Made ((k, v) ∷ raws) m) (sym q) (inl (text_of-none (key_name k) v e))
    | inr (t, e) ↦
        let m' = insert (key_name k) (record { raw = t }) m in
        let q : values_of ((k, v) ∷ raws) m ≡ values_of raws m' = rw (e, values_of) refl in
        subst (Made ((k, v) ∷ raws) m) (sym q) (
          Made-step k t v raws m (values_of raws m') e (
            values_of-Made raws m' (insert-IsKeyed (key_name k) (record { raw = t }) m keyed) (
              insert-IsLower (key_name k) (record { raw = t }) m
                (unfold key_name in to_lower_idem k) lower)))
  ]

  -- What Set did to a storage, by what the document is.
  abbrev pub Sets : Option (Dict (TomlValue V)) → Storage → Bool × Storage → Type 0
  Sets none m r = r ≡ (false, m)
  Sets (some raws) m r =
      (Fails raws × (r ≡ (false, m)))
      ⊎ ((¬ Fails raws)
          × (r.0 ≡ true)
          × ((key : Text) → get r.1 key ≡ returned (as_value (last_text (key_name key) raws))))

  or_else_empty : (q : Text) (o : Option Text) → or_else (as_value o) (lookup q []) ≡ as_value o
  unfolding lookup
  or_else_empty q none = refl
  or_else_empty q (some t) = refl

  finish-Sets :
      (raws : Dict (TomlValue V)) (m : Storage) (o : Option (Dict Value))
      → Made raws [] o
      → Sets (some raws) m (finish o m)
  unfolding finish
  finish-Sets raws m none h = inl (h, refl)
  finish-Sets raws m (some values) (fine, keyed, lower, found) = inr (
    fine,
    refl,
    λ key.
        get-store_lower values key keyed lower
        ∙ ap returned
            (found (key_name key) ∙ or_else_empty (key_name key) (last_text (key_name key) raws)),
  )

  -- Set of a text that is no document, or that has a value of another kind than the six or one
  -- that the encoder refuses, is an error and leaves the storage as it was; of any other text it
  -- is none, and Get of a name in any case then gives the text of the document's last value under
  -- it, and nil of no such.
  pub set-Sets : (text : Text) (m : Storage) → Sets (codec.unmarshal text) m (set text m)
  unfolding set unmarshal_text
  set-Sets text m = elim (Option-cases (codec.unmarshal text)) [
    | inl e ↦ rw (e, unmarshal_text) refl
    | inr (raws, e) ↦
        rw (e, unmarshal_text)
          (finish-Sets raws m (values_of raws []) (values_of-Made raws [] tt tt))
  ]
