-- ===== src/Conf/Settings.antt =====
-- The package functions of conf/api.go, Value.Unmarshal and Value.UnmarshalTOML of conf/value.go, and
-- how the other packages read their settings: conf.Get(file).Unmarshal(&st), and then
-- st.Get(name).UnmarshalTOML(&cfg).
use motor.Base.{
  Text, Dict, Bool, true, false, ◌≡◌, ◌⊎◌, inl, inr, refl, sym, subst, Option, none, some,
}
use motor.Base.Outcome.{Outcome, returned, panicked, ◌>>=◌}
use motor.Conf.Storage
use motor.Conf.Storage.{Value, Storage, key_name, raw}
use motor.Conf.Toml.{
  Codec, TomlValue, unmarshal_text, set, last_text, as_value, Fails, Sets, set-Sets,
}
use motor.Conf.Files.{Stat, Result, ok, err}
use motor.Conf.Watch
use motor.Conf.Watch.{Conf, new_conf}

-- Parse: the client `g` after it, nil where there is an error, and whether there is none.
parsed : Result Conf → Bool × Option Conf
parsed (ok c) = (true, some c)
parsed (err e) = (false, none)

unfoldable pub parse : Stat → Bool × Option Conf
unfolding parsed
parse path = parsed (new_conf path)

-- Get of a nil client panics.
unfoldable pub get : Option Conf → Text → Outcome (Option Value)
get none key = panicked
get (some g) key = Watch.get g key

-- Unmarshal into a Storage.
unfoldable pub unmarshal :
    {V : Type 0} → Codec V → Option Value → Storage → Outcome (Bool × Storage)
unmarshal codec v st = do text ← raw v; returned (unmarshal_text codec text st)

-- UnmarshalTOML; `decode` is toml.Unmarshal into the settings' type, `none` for an error.
unfoldable pub unmarshal_toml : {A : Type 0} → (Text → Option A) → Option Value → Outcome (Option A)
unmarshal_toml decode v = do text ← raw v; returned (decode text)

-- conf.Get(file).Unmarshal(&st)
unfoldable pub open_file : {V : Type 0} → Codec V → Option Conf → Text → Outcome (Bool × Storage)
unfolding unmarshal
open_file codec g file = do v ← get g file; unmarshal codec v (record { values = none })

-- st.Get(name).UnmarshalTOML(&cfg), where there was no error before.
unfoldable pub section_of :
    {A : Type 0} → Text → (Text → Option A) → Bool × Storage → Outcome (Option A)
unfolding unmarshal_toml
section_of name decode (false, st) = returned none
section_of name decode (true, st) = do v ← Storage.get st name; unmarshal_toml decode v

-- How settings are read; `returned none` is either of the two errors.
unfoldable pub section :
    {V A : Type 0} → Codec V → Option Conf → Text → Text → (Text → Option A) → Outcome (Option A)
unfolding open_file section_of
section codec g file name decode = do st ← open_file codec g file; section_of name decode st

-- The settings of a document, by what it has last under the section's name.
abbrev pub settings : {A : Type 0} → (Text → Option A) → Option Text → Outcome (Option A)
settings decode none = panicked
settings decode (some t) = returned (decode t)

-- What reading a section gives, by what the file's document is.
abbrev pub Reads :
    {V A : Type 0}
    → Codec V
    → Text
    → (Text → Option A)
    → Option (Dict (TomlValue V))
    → Outcome (Option A)
    → Type 0
Reads codec name decode none r = r ≡ returned none
Reads codec name decode (some raws) r =
    (Fails codec raws × (r ≡ returned none))
    ⊎ ((¬ Fails codec raws) × (r ≡ settings decode (last_text codec (key_name name) raws)))

module _ {V A : Type 0} (codec : Codec V) (name : Text) (decode : Text → Option A) where
  toml-settings : (o : Option Text) → unmarshal_toml decode (as_value codec o) ≡ settings decode o
  unfolding unmarshal_toml
  toml-settings none = unfold raw in refl
  toml-settings (some t) = rw (Storage.raw-some (record { raw = t })) refl

  section_of-Reads :
      (doc : Option (Dict (TomlValue V))) (r : Bool × Storage)
      → Sets codec doc (record { values = none }) r
      → Reads codec name decode doc (section_of name decode r)
  unfolding section_of
  section_of-Reads none r h = subst (λ q. section_of name decode q ≡ returned none) (sym h) refl
  section_of-Reads (some raws) r (inl (fails, h)) =
      inl (fails, subst (λ q. section_of name decode q ≡ returned none) (sym h) refl)
  section_of-Reads (some raws) (true, st) (inr (fine, h, found)) =
      inr (fine, rw (found name) (toml-settings (last_text codec (key_name name) raws)))
  section_of-Reads (some raws) (false, st) (inr (fine, h, found)) = cc

  -- Reading a section of a file: an error where the file is no document; else, unless some value of
  -- it has no text, the settings that its last value under the name in any case gives, and a panic where it
  -- has no such name.
  pub section-Reads :
      (g : Option Conf) (file : Text) (v : Value)
      → get g file ≡ returned (some v)
      → Reads codec name decode (codec.unmarshal v.raw) (section codec g file name decode)
  unfolding section open_file unmarshal
  section-Reads g file v e =
      rw (e, Storage.raw-some v, section)
        (section_of-Reads (codec.unmarshal v.raw)
          (unmarshal_text codec v.raw (record { values = none }))
          (unfold set in set-Sets codec v.raw (record { values = none })))
