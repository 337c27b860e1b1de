-- ===== src/Conf/Reload/First.antt =====
-- The first load of a pool, before its loop starts.
use motor.Base.{Text, ◌≡◌, inl, inr, refl, sym, ap, subst, ◌∙◌, Option, none, some, Option-cases}
use mathlib.Core.Option
use mathlib.Core.Option.{some-injective}
use motor.Base.Outcome.{Outcome, returned, panicked, ◌>>=◌}
use motor.Conf.Watch.{Conf, get}
use motor.Conf.Reload.{read_file}
use motor.Conf.Storage.{Value, raw, raw-some}
use motor.Conf.Settings.{unmarshal_toml}
use motor.Conf.Reload.Found.{IsPresent}
use motor.Conf.Settings.{unmarshal_toml}
use motor.Conf.Storage.{raw-some}
use motor.Conf.Reload.Synced.{IsLoad, IsCurrent}

module _ {A P : Type 0} (file : Text) (decode : Text → Option A) (load : A → P → P) where
  -- What a first load comes to, by what Get finds.
  abbrev pub first : P → Outcome (Option Value) → Outcome (Option P)
  first p found = do
    v ← found
    cfg ← unmarshal_toml decode v
    returned (Option.map (λ x. load x p) cfg)

  abbrev answer : Outcome (Option P) → Option P
  answer panicked = none
  answer (returned o) = o

  first_found :
      (p q : P) (found : Outcome (Option Value))
      → first p found ≡ returned (some q)
      → (v : Value) × (cfg : A) × (found ≡ returned (some v))
        × (decode v.raw ≡ some cfg)
        × (q ≡ load cfg p)
  unfolding unmarshal_toml
  first_found p q panicked e = cc
  first_found p q (returned none) e = unfold raw in cc
  first_found p q (returned (some v)) e = elim (Option-cases (decode v.raw)) [
    | inl bad ↦ cc (rw (raw-some v, bad) at e)
    | inr (cfg, good) ↦ (
      v,
      cfg,
      refl,
      good,
      sym (some-injective (load cfg p) q (ap answer (rw (raw-some v, good) at e))),
    )
  ]

  toml_value :
      (v : Value) (cfg : A)
      → decode v.raw ≡ some cfg
      → unmarshal_toml decode (some v) ≡ returned (some cfg)
  unfolding unmarshal_toml
  toml_value v cfg good = rw (raw-some v, good) refl

  pub first-IsCurrent :
      (c : Conf) (p q : P)
      → first p (get c file) ≡ returned (some q)
      → IsPresent file c × IsCurrent file decode load c (returned q)
  unfolding read_file
  first-IsCurrent c p q e =
      let (v, cfg, found, good, same) = first_found p q (get c file) e in
      let value : read_file file decode load c ≡ returned (some cfg) =
        ap (λ o. o >>= unmarshal_toml decode) found ∙ toml_value v cfg good in
      (
        (v, found),
        subst (λ o. IsLoad file decode load o (returned q)) (sym value) (p, ap returned same),
      )
