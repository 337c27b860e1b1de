-- ===== src/Http.antt =====
-- jwt/ and http/: the tokens of a request, the middleware of a server, and the server.
pub mod Token
pub mod Jwt
pub mod Request
pub mod Guard
pub mod Report
pub mod Server
mod Tests
