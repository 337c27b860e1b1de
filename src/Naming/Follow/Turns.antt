-- ===== src/Naming/Follow/Turns.antt =====
-- What one turn of a loop that follows a service does.
use motor.Base.{
  ℕ, Text, Bool, true, false, ◌≡◌, refl, ap, ◌∙◌, inl, inr, List, [], ◌∷◌, ◌++◌, arith, Bool-cases,
}
use motor.Naming.Types.{Instance}
use motor.Naming.Builder.{fetch}
use motor.Naming.Follow.{System, Turn, fetched, fetch_turn, turn, follow}

module _ {P : Type 0} (load : List Instance → P → P) (r : ℕ) (sn : Text) where
  pub turned :
      (s : System P)
      → s.woken ≡ true
      → fetch_turn load r sn s ≡ fetched load r sn s (fetch sn s.builder)
  unfolding fetch_turn
  turned s w = ground (arith, w)

  pub unturned : (s : System P) → s.woken ≡ false → fetch_turn load r sn s ≡ s
  unfolding fetch_turn
  unturned s w = ground (arith, w)

  fetched-waits :
      (s : System P) (now : List Instance × Bool) → (fetched load r sn s now).woken ≡ false
  unfolding fetched
  fetched-waits s (ins, false) = refl
  fetched-waits s (ins, true) = refl

  fetched-builder :
      (s : System P) (now : List Instance × Bool) → (fetched load r sn s now).builder ≡ s.builder
  unfolding fetched
  fetched-builder s (ins, false) = refl
  fetched-builder s (ins, true) = refl

  pub fetch_turn-waits : (s : System P) → (fetch_turn load r sn s).woken ≡ false
  fetch_turn-waits s = elim (Bool-cases s.woken) [
    | inl w ↦ ap (λ (x : System P). x.woken) (turned s w) ∙ fetched-waits s (fetch sn s.builder)
    | inr w ↦ ap (λ (x : System P). x.woken) (unturned s w) ∙ w
  ]

  pub fetch_turn-builder : (s : System P) → (fetch_turn load r sn s).builder ≡ s.builder
  fetch_turn-builder s = elim (Bool-cases s.woken) [
    | inl w ↦ ap (λ (x : System P). x.builder) (turned s w) ∙ fetched-builder s (fetch sn s.builder)
    | inr w ↦ ap (λ (x : System P). x.builder) (unturned s w)
  ]

  pub follow-append :
      (s : System P) (ts us : List Turn)
      → follow load r sn s (ts ++ us) ≡ follow load r sn (follow load r sn s ts) us
  unfolding follow
  follow-append s [] us = refl
  follow-append s (t ∷ ts) us = follow-append (turn load r sn s t) ts us
