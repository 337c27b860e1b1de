-- ===== src/Http/Token.antt =====
-- jwt/jwt.go. The claims of a token are of any type, as jwt-go decodes them; jwt-go is a parameter.
use mathlib.Core.Option.{some-injective}
use motor.Base.{
  ℕ, Text, Bool, true, false, ◌≡◌, refl, sym, ap, subst, Option, none, some, if◌then◌else◌,
}

-- The dynamic type of token.Method: *jwt.SigningMethodHMAC, of so many bits, or another.
pub data Method : Type 0 where
  hmac : ℕ → Method
  other : ℕ → Method

-- A *jwt.Token; `claims` is `none` when they are not *MotorClaims.
pub record Token (C : Type 0) : Type 0 where
  pub method : Method
  pub claims : Option C
  pub valid : Bool

-- An error of jwt-go, with the bits of ValidationError.Errors where it is one; and ParseToken's own.
pub data Error : Type 0 where
  validation_error : ℕ → Error
  other_error : Error
  invalid_token : Error

pub data Result (A : Type 0) : Type 0 where
  ok : A → Result A
  err : Error → Result A

pub ok-injective : {A : Type 0} (a b : A) → ok a ≡ ok b → a ≡ b
ok-injective a b h = cc

-- What ParseWithClaims is given to choose the key with; `none` is an error.
abbrev pub KeyFunc : Type 0 → Type 0
KeyFunc C = Token C → Option Text

key_of : Text → Method → Option Text
key_of secret (hmac bits) = some secret
key_of secret (other n) = none

key_of-some :
    (secret key : Text) (m : Method)
    → key_of secret m ≡ some key
    → (bits : ℕ) × (m ≡ hmac bits) × (key ≡ secret)
unfolding key_of
key_of-some secret key (hmac bits) h = (bits, refl, sym (some-injective secret key h))
key_of-some secret key (other n) h = cc

module _ {C : Type 0} where
  unfoldable pub key_func : Text → KeyFunc C
  unfolding key_of
  key_func secret token = key_of secret token.method

  checked : Bool → Option C → Result C
  checked valid none = err invalid_token
  checked valid (some claims) = if valid then ok claims else err invalid_token

  accept : Result (Token C) → Result C
  unfolding checked
  accept (err e) = err e
  accept (ok token) = checked token.valid token.claims

  -- `parse` is jwt.ParseWithClaims.
  unfoldable pub parse_token : (Text → KeyFunc C → Result (Token C)) → Text → Text → Result C
  unfolding accept
  parse_token parse secret text = accept (parse text (key_func secret))

  checked-ok :
      (valid : Bool) (claims : Option C) (c : C)
      → checked valid claims ≡ ok c
      → (valid ≡ true) × (claims ≡ some c)
  unfolding checked
  checked-ok valid none c h = cc
  checked-ok true (some claims) c h = (refl, ap some (ok-injective claims c h))
  checked-ok false (some claims) c h = cc

  accept-ok :
      (r : Result (Token C)) (c : C)
      → accept r ≡ ok c
      → (token : Token C) × (r ≡ ok token) × (token.valid ≡ true) × (token.claims ≡ some c)
  unfolding accept
  accept-ok (err e) c h = cc
  accept-ok (ok token) c h =
      let (v, k) = checked-ok token.valid token.claims c h in (token, refl, v, k)

  -- What jwt-go documents: a token is given without an error only if the key that the function chose
  -- for it verifies its signature by its method.
  abbrev pub IsVerifier :
      (Text → KeyFunc C → Result (Token C)) → (Method → Text → Text → Option C → Type 0) → Type 0
  IsVerifier parse Signed =
      (text : Text) (k : KeyFunc C) (token : Token C)
      → parse text k ≡ ok token
      → (key : Text) × (k token ≡ some key) × Signed token.method key text token.claims

  -- With a parser as jwt-go documents it, ParseToken gives claims only of a token that is signed with
  -- the secret by an HMAC method; one of any other method is refused, whatever key it is signed with.
  pub parse_token-Signed :
      (parse : Text → KeyFunc C → Result (Token C))
      (Signed : Method → Text → Text → Option C → Type 0) (law : IsVerifier parse Signed)
      (secret text : Text) (claims : C)
      → parse_token parse secret text ≡ ok claims
      → (bits : ℕ) × Signed (hmac bits) secret text (some claims)
  unfolding parse_token accept checked key_func key_of
  parse_token-Signed parse Signed law secret text claims h =
      let (token, parsed, valid, c) = accept-ok (parse text (key_func secret)) claims h in
      let (key, chosen, signed) = law text (key_func secret) token parsed in
      let (bits, m, same) = key_of-some secret key token.method chosen in
      (
        bits,
        subst (λ x. Signed x secret text (some claims)) m
            (subst (λ x. Signed token.method x text (some claims)) same
              (subst (Signed token.method key text) c signed)),
      )

  -- jwt.NewWithClaims with HS256, then SignedString with the secret, which is `sign`.
  unfoldable pub gen_token : (Method → Text → C → Option Text) → Text → C → Option Text
  gen_token sign secret claims = sign (hmac 256) secret claims

-- `has_expired` tests the bit ValidationErrorExpired.
unfoldable pub is_expires : (ℕ → Bool) → Error → Bool
is_expires has_expired (validation_error errors) = has_expired errors
is_expires has_expired other_error = false
is_expires has_expired invalid_token = false
