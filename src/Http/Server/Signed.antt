-- ===== src/Http/Server/Signed.antt =====
-- http/jwt.go as a middleware of a server: which requests the handlers behind it get.
use motor.Base.{
  ℕ, Text, Dict, lit, Bool, true, false, ◌≡◌, refl, inl, inr, Option, none, some, List, [], ◌∷◌,
  insert, Bool-cases, if◌then◌else◌,
}
use motor.Trace.{Stored, other_value}
use motor.Http.Token.{KeyFunc, Token, Result, Method, hmac, IsVerifier}
use motor.Http.Jwt.{Body, Context, jwt, jwt-Signed}
use motor.Http.Request.{done, Ctx, Request, Handler, Middleware, get_header, data_of}
use motor.Http.Server.{Setup, server}
use motor.Http.Server.Stack.{begun, given}
use motor.Http.Server.Traced.{server_agree}

-- What Jwt sees of a request; the header's name is in its canonical form.
abbrev pub token_of : {S : Type 0} → Request S → Text
token_of c = get_header (lit "Jwt-Token") c.header

module _ {S : Type 0} (json : Body → Text) where
  -- c.JSON of each body
  written_to : List Body → Request S → Request S
  unfolding data_of
  written_to [] c = c
  written_to (body ∷ bodies) c =
      written_to bodies (data_of 200 (lit "application/json; charset=utf-8") (json body) c)

-- c.Set("jwtClaims", claims), where the claims are the value `value_of` of c.Keys.
set_claims : {S C : Type 0} → (C → ℕ) → Option C → Dict (Stored (Ctx S)) → Dict (Stored (Ctx S))
set_claims value_of none keys = keys
set_claims value_of (some claims) keys =
    insert (lit "jwtClaims") (other_value (value_of claims)) keys

module _ {S C : Type 0} (json : Body → Text) (value_of : C → ℕ) where
  -- What gin does after Jwt, which does not call c.Next.
  unfoldable pub after_jwt : Context C → Handler S → Handler S
  unfolding written_to set_claims
  after_jwt x next c =
      if x.aborted
      then (done, record (written_to json x.written c) { aborted = true })
      else next (record c { keys = set_claims value_of x.jwt_claims c.keys })

  unfoldable pub guard : (Text → KeyFunc C → Result (Token C)) → (ℕ → Bool) → Text → Middleware S
  unfolding after_jwt
  guard parse has_expired secret next c =
      after_jwt
        (jwt parse has_expired secret
          (record { header = token_of c; jwt_claims = none; written = []; aborted = false }))
        next c

module _ {S C : Type 0} (json : Body → Text) (value_of : C → ℕ)
    (parse : Text → KeyFunc C → Result (Token C))
    (Signed : Method → Text → Text → Option C → Type 0) (law : IsVerifier parse Signed)
    (has_expired : ℕ → Bool) (secret : Text) where
  -- The header holds a token with claims, signed with the secret by an HMAC method.
  abbrev pub HasToken : Request S → Type 0
  HasToken c = (claims : C) × (bits : ℕ) × Signed (hmac bits) secret (token_of c) (some claims)

  after_agree :
      (x : Context C) (next next' : Handler S) (c : Request S)
      → (x.aborted ≡ false
          → next (record c { keys = set_claims value_of x.jwt_claims c.keys })
            ≡ next' (record c { keys = set_claims value_of x.jwt_claims c.keys }))
      → after_jwt json value_of x next c ≡ after_jwt json value_of x next' c
  unfolding after_jwt
  after_agree x next next' c same = elim (Bool-cases x.aborted) [
    | inl e ↦ rw (e, after_jwt) refl
    | inr e ↦ rw (e, after_jwt) (same e)
  ]

  guard_agree :
      (next next' : Handler S) (c : Request S)
      → ((r : Request S) → HasToken r → next r ≡ next' r)
      → guard json value_of parse has_expired secret next c
        ≡ guard json value_of parse has_expired secret next' c
  unfolding guard
  guard_agree next next' c same =
      let asked : Context C = record {
        header = token_of c;
        jwt_claims = none;
        written = [];
        aborted = false;
      } in
      after_agree (jwt parse has_expired secret asked) next next' c (λ passed.
        let (claims, found, (bits, signed)) =
          jwt-Signed parse Signed law has_expired secret asked passed in
        same _ (claims, bits, signed))

  -- With a parser as jwt-go documents it, what a server makes of a request is decided by what the
  -- handlers behind Jwt do with requests whose header holds a token with claims that is signed
  -- with the secret by an HMAC method: handlers that agree on those make the same answers, log
  -- lines, spans and counts of every request.
  pub server-HasToken :
      (s : Setup S) (next next' : Handler S) (c : Request S)
      → ((r : Request S) → HasToken r → next r ≡ next' r)
      → server s (guard json value_of parse has_expired secret next) c
        ≡ server s (guard json value_of parse has_expired secret next') c
  server-HasToken s next next' c same =
      server_agree s (guard json value_of parse has_expired secret next)
        (guard json value_of parse has_expired secret next') c
        (guard_agree next next' (given s s.added (begun s.lib c)) same)
