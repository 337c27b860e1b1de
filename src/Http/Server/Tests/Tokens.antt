-- ===== src/Http/Server/Tests/Tokens.antt =====
-- A request with a token.
use motor.Base.{◌≡◌, refl, Text, lit, [], ◌∷◌, is_empty, if◌then◌else◌}
use motor.Http.Request.{Request, Handler}
use motor.Http.Server.{server}
use motor.Http.Tests.{parse, Marked, parse-IsVerifier, is_expiry, secret}
use motor.Http.Server.Signed.{token_of, guard, HasToken, server-HasToken}
use motor.Http.Server.Tests.{setup, visit, busy, crash}

-- A handler that panics of a request without a token.
abbrev trusting : Handler Text
trusting c = if is_empty (token_of c) then crash c else busy c

trusting_lem :
    (r : Request Text)
    → HasToken
        (λ body. lit "{}")
        (λ claims. claims)
        parse
        Marked
        parse-IsVerifier
        is_expiry
        secret
        r
    → trusting r ≡ busy r
unfolding is_empty
trusting_lem r (claims, bits, (c, held, text)) = rw text refl

abbrev guarded : Handler Text → Handler Text
guarded next = guard (λ body. lit "{}") (λ claims. claims) parse is_expiry secret next

-- A request with a token that is signed, and not expired.
abbrev signed : Request Text
signed = record (visit (lit "/a")) { header = (lit "Jwt-Token", 9 ∷ secret) ∷ [] }

server-HasToken_example :
    server setup (guarded trusting) signed ≡ server setup (guarded busy) signed
server-HasToken_example =
    server-HasToken (λ body. lit "{}") (λ claims. claims) parse Marked parse-IsVerifier is_expiry
      secret setup trusting busy signed trusting_lem
