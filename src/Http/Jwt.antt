-- ===== src/Http/Jwt.antt =====
-- http/jwt.go: the middleware, over what it does to a gin.Context.
use motor.Base.{
  ℕ, Text, Bool, true, false, ◌≡◌, ◌⊎◌, inl, inr, refl, sym, ap, subst, Option, some, List, [], ◌∷◌,
  ◌++◌, is_empty, Bool-cases, if◌then◌else◌,
}
use motor.Http.Token.{
  KeyFunc, Token, Result, ok, err, Error, parse_token, is_expires, Method, hmac, IsVerifier,
  parse_token-Signed,
}

-- The three bodies of gin.H, each with http.StatusOK: status -1, and twice status 1.
pub data Body : Type 0 where
  no_token token_expired bad_token : Body

-- A gin.Context: the header JWT-TOKEN, the key "jwtClaims", what c.JSON wrote, and Abort, after
-- which gin runs no later handler.
pub record Context (C : Type 0) : Type 0 where
  pub header : Text
  pub jwt_claims : Option C
  pub written : List Body
  pub aborted : Bool

module _ {C : Type 0} where
  refuse : Body → Context C → Context C
  refuse body c = record c { written = c.written ++ (body ∷ []); aborted = true }

  answer : (ℕ → Bool) → Result C → Context C → Context C
  unfolding refuse
  answer has_expired (ok claims) c = record c { jwt_claims = some claims }
  answer has_expired (err e) c =
      if is_expires has_expired e then refuse token_expired c else refuse bad_token c

  unfoldable pub jwt :
      (Text → KeyFunc C → Result (Token C)) → (ℕ → Bool) → Text → Context C → Context C
  unfolding refuse answer
  jwt parse has_expired secret c =
      if is_empty c.header
      then refuse no_token c
      else answer has_expired (parse_token parse secret c.header) c

  -- Why a body is written, where `read` is ParseToken.
  abbrev pub Reason : (ℕ → Bool) → (Text → Result C) → Context C → Body → Type 0
  Reason has_expired read c no_token = is_empty c.header ≡ true
  Reason has_expired read c token_expired =
      (e : Error) × (read c.header ≡ err e) × (is_expires has_expired e ≡ true)
  Reason has_expired read c bad_token =
      (e : Error) × (read c.header ≡ err e) × (is_expires has_expired e ≡ false)

  -- A request passes with its claims, or is aborted with one body more.
  abbrev pub Decides : (ℕ → Bool) → (Text → Result C) → Context C → Context C → Type 0
  Decides has_expired read c c' =
      ((claims : C) × (is_empty c.header ≡ false)
        × (read c.header ≡ ok claims)
        × (c' ≡ record c { jwt_claims = some claims }))
      ⊎ ((body : Body) × Reason has_expired read c body
          × (c' ≡ record c { written = c.written ++ (body ∷ []); aborted = true }))

  answer-Decides :
      (has_expired : ℕ → Bool) (read : Text → Result C) (r : Result C) (c : Context C)
      → is_empty c.header ≡ false
      → read c.header ≡ r
      → Decides has_expired read c (answer has_expired r c)
  unfolding answer refuse
  answer-Decides has_expired read (ok claims) c h e = inl (claims, h, e, refl)
  answer-Decides has_expired read (err x) c h e = elim (Bool-cases (is_expires has_expired x)) [
    | inl f ↦ inr (token_expired, (x, e, f), rw (f, answer) refl)
    | inr f ↦ inr (bad_token, (x, e, f), rw (f, answer) refl)
  ]

  -- The middleware lets a request with a token pass exactly with the claims that ParseToken gives
  -- for it, and writes nothing then; any other request it aborts, with one body, by whether there
  -- is no token, an expired one, or another that ParseToken refuses; its claims are left alone.
  pub jwt-Decides :
      (parse : Text → KeyFunc C → Result (Token C)) (has_expired : ℕ → Bool) (secret : Text)
      (c : Context C)
      → Decides has_expired (parse_token parse secret) c (jwt parse has_expired secret c)
  unfolding jwt refuse
  jwt-Decides parse has_expired secret c = elim (Bool-cases (is_empty c.header)) [
    | inl e ↦
        let q : jwt parse has_expired secret c ≡ refuse no_token c = rw (e, jwt) refl in
        inr (no_token, e, q)
    | inr e ↦
        let read = parse_token parse secret in
        let q : jwt parse has_expired secret c ≡ answer has_expired (read c.header) c =
          rw (e, jwt) refl in
        subst (Decides has_expired read c) (sym q)
          (answer-Decides has_expired read (read c.header) c e refl)
  ]

  -- With a parser as jwt-go documents it, a request that is not aborted carries claims under
  -- "jwtClaims" that the header's token holds, signed with the secret by an HMAC method.
  pub jwt-Signed :
      (parse : Text → KeyFunc C → Result (Token C))
      (Signed : Method → Text → Text → Option C → Type 0) (law : IsVerifier parse Signed)
      (has_expired : ℕ → Bool) (secret : Text) (c : Context C)
      → (jwt parse has_expired secret c).aborted ≡ false
      → (claims : C) × ((jwt parse has_expired secret c).jwt_claims ≡ some claims)
        × ((bits : ℕ) × Signed (hmac bits) secret c.header (some claims))
  jwt-Signed parse Signed law has_expired secret c passed =
      elim (jwt-Decides parse has_expired secret c) [
        | inl (claims, h, e, q) ↦ (
          claims,
          ap (λ (x : Context C). x.jwt_claims) q,
          parse_token-Signed parse Signed law secret c.header claims e,
        )
        | inr (body, reason, q) ↦ cc (passed, ap (λ (x : Context C). x.aborted) q)
      ]
