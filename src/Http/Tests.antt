-- ===== src/Http/Tests.antt =====
-- A token library that signs by writing the key behind the claims, and the theorems with it.
use motor.Base.{
  ℕ, ◌≡◌, inl, inr, refl, subst, sym, ap, Text, lit, Bool, true, false, Option, none, some, [], ◌∷◌,
  is_empty, text_eq, text_eq_iff, Bool-cases, if◌then◌else◌, ◌==◌,
}
use motor.Http.Token.{
  Method, hmac, key_func, Token, validation_error, other_error, Result, ok, err, KeyFunc,
  IsVerifier, ok-injective, is_expires, parse_token, gen_token,
}
use motor.Http.Jwt.{Context, token_expired, Decides, jwt, jwt-Decides, jwt-Signed}

abbrev pub token_of : ℕ → Token ℕ
token_of claims = record { method = hmac 256; claims = some claims; valid = true }

-- Claims of 0 are expired.
abbrev pub verify : ℕ → Text → Option Text → Result (Token ℕ)
verify claims mark none = err other_error
verify claims mark (some key) =
    if text_eq key mark
    then (if claims == 0 then err (validation_error 16) else ok (token_of claims))
    else err (validation_error 4)

abbrev pub parse : Text → KeyFunc ℕ → Result (Token ℕ)
parse [] k = err other_error
parse (claims ∷ mark) k = verify claims mark (k (token_of claims))

abbrev pub Marked : Method → Text → Text → Option ℕ → Type 0
Marked m key text claims = (c : ℕ) × (claims ≡ some c) × (text ≡ c ∷ key)

verify-IsVerifier :
    (claims : ℕ) (mark : Text) (o : Option Text) (token : Token ℕ)
    → verify claims mark o ≡ ok token
    → (key : Text) × (o ≡ some key) × (token ≡ token_of claims) × (mark ≡ key)
verify-IsVerifier claims mark none token h = cc
verify-IsVerifier claims mark (some key) token h = elim (Bool-cases (text_eq key mark)) [
  | inl e ↦ elim (Bool-cases (claims == 0)) [
    | inl f ↦ cc (rw (e, f) at h)
    | inr f ↦ (
      key,
      refl,
      sym (ok-injective (token_of claims) token (rw (e, f) at h)),
      sym ((text_eq_iff key mark).0 e),
    )
  ]
  | inr e ↦ cc (rw e at h)
]

pub parse-IsVerifier : IsVerifier parse Marked
parse-IsVerifier [] k token h = cc
parse-IsVerifier (claims ∷ mark) k token h =
    let (key, chosen, same, m) = verify-IsVerifier claims mark (k (token_of claims)) token h in
    (
      key,
      subst (λ t. k t ≡ some key) (sym same) chosen,
      (claims, ap (λ (t : Token ℕ). t.claims) same, ap (λ rest. claims ∷ rest) m),
    )

abbrev pub secret : Text
secret = lit "s3"

abbrev sign : Method → Text → ℕ → Option Text
sign (hmac bits) key claims = if bits == 256 then some (claims ∷ key) else none
sign m key claims = none

signs : gen_token sign secret 9 ≡ some (9 ∷ secret)
unfolding gen_token
signs = refl

abbrev pub is_expiry : ℕ → Bool
is_expiry errors = errors == 16

abbrev request : Text → Context ℕ
request header = record { header = header; jwt_claims = none; written = []; aborted = false }

jwt-Decides_example :
    Decides is_expiry
      (parse_token parse secret)
      (request (0 ∷ secret))
      (jwt parse is_expiry secret (request (0 ∷ secret)))
jwt-Decides_example = jwt-Decides parse is_expiry secret (request (0 ∷ secret))

expired_written : (jwt parse is_expiry secret (request (0 ∷ secret))).written ≡ token_expired ∷ []
unfolding jwt parse_token key_func text_eq is_empty is_expires
expired_written = refl

jwt-Signed_example :
    (claims : ℕ) × ((jwt parse is_expiry secret (request (9 ∷ secret))).jwt_claims ≡ some claims)
    × ((bits : ℕ) × Marked (hmac bits) secret (9 ∷ secret) (some claims))
unfolding jwt parse_token key_func text_eq is_empty
jwt-Signed_example =
    jwt-Signed parse Marked parse-IsVerifier is_expiry secret (request (9 ∷ secret)) refl
