-- ===== src/Http/Server/Tests.antt =====
-- A tracer whose spans' contexts are their names, and the theorems on a server at requests.
mod Queries
mod Missing
mod Tokens
use motor.Base.{
  ℕ, ◌+◌, ◌≡◌, refl, Text, lit, lookup, insert, Bool, true, false, ◌&&◌, none, some, List, [], ◌∷◌,
  length, is_empty, text_eq, not, if◌then◌else◌,
}
use motor.Base.Outcome.{returned}
use motor.Trace.{TJaeger}
use motor.Mysql.Conn.{Db}
use motor.Mysql.Query.{Run}
use motor.Http.Request.{
  Ctx, done, panics, other_panic, label_error, unwritten, written, Request, Handler, Library,
}
use motor.Http.Report.{observe, span_of, access_of, traced}
use motor.Http.Server.{
  ServerConf, Call, Added, adds_metrics, adds_ratelimit, middlewares, no_route, no_method, use_all,
  Engine, Setup, chain, server, used, no_route_of, no_method_of, default_server, IsGin,
}
use motor.Http.Guard.{ratelimit, exit}
use motor.Http.Server.Stack.{given, left, Crashed, server-panics}
use motor.Http.Server.Reported.{server-refusal}
use motor.Http.Server.Kept.{Logs, server-Logs, server-IsBalanced}
use motor.Http.Tests.{parse, Marked, parse-IsVerifier, is_expiry, secret}
use motor.Http.Server.Signed.{token_of, guard, HasToken, server-HasToken}
use motor.Http.Server.Traced.{Spanned, server-methods}

abbrev pub tracer : Library Text
tracer = record {
  registered = true;
  extract = lookup (lit "Uber-Trace-Id");
  start_span = λ name parent. name;
  inject = λ span. ([], false);
  format_time = λ n. lit "01/Jan/2020:00:00:00";
  decimal = λ n. 48 ∷ [];
}

abbrev pub conf : ServerConf
conf = record {
  addr = lit ":80";
  read_timeout = 0;
  write_timeout = 0;
  cert_file = [];
  key_file = [];
}

-- Metrics and Ratelimit are added, and Ratelimit lets all pass; the vectors take all paths but "/bad".
abbrev pub setup : Setup Text
setup = record {
  lib = tracer;
  svc = conf;
  added = adds_metrics ∷ adds_ratelimit ∷ [];
  vectors = some (record { accepts = λ path. not (text_eq path (lit "/bad")) });
  default_path = lit "/metrics";
  enabled = true;
  enter = λ c. true;
}

abbrev pub visit : Text → Request Text
visit path = record {
  method = lit "GET";
  path = path;
  raw_query = [];
  escaped_path = path;
  proto = lit "HTTP/1.1";
  client_ip = lit "::1";
  header = [];
  keys = [];
  status = 200;
  sent = none;
  size = unwritten;
  replies = [];
  aborted = false;
  errors = [];
  logs = [];
  spans = [];
  entries = 0;
  counted = [];
  failed = [];
  observed = [];
  now = 7000000;
}

-- A handler that panics, and one that sends 503 after a while.
abbrev pub crash : Handler Text
crash c = (panics (other_panic 3), c)

abbrev pub busy : Handler Text
busy c = (done, record c { status = 503; sent = some 503; size = written 0; now = 9500000 })

abbrev entered : Request Text → Request Text
entered c = record (traced tracer c) { entries = 1 }

-- A request as `busy` leaves it, behind Metrics.
abbrev with_503 : Text → Request Text
with_503 path = record (traced tracer (visit path)) {
  status = 503;
  sent = some 503;
  size = written 0;
  now = 9500000;
}

server-panics_example :
    let (ending, d) = server setup crash (visit (lit "/a")) in
    (ending ≡ done)
    × Crashed tracer
        (visit (lit "/a"))
        (other_panic 3)
        (record (entered (visit (lit "/a"))) { entries = 0 })
        d
unfolding traced given left
server-panics_example =
    server-panics setup crash (visit (lit "/a")) (entered (visit (lit "/a"))) (other_panic 3)
      (refl, tt) refl

-- The client has got 503 when Metrics panics.
server-refusal_example :
    let (ending, d) = server setup busy (visit (lit "/bad")) in
    (ending ≡ done)
    × (d.status ≡ 500)
    × ((first : ℕ) → (with_503 (lit "/bad")).sent ≡ some first → d.sent ≡ some first)
    × ((with_503 (lit "/bad")).sent ≡ none → d.sent ≡ some 500)
    × Crashed tracer (visit (lit "/bad")) label_error (with_503 (lit "/bad")) d
unfolding text_eq traced chain middlewares ratelimit exit
server-refusal_example =
    server-refusal setup (adds_ratelimit ∷ []) busy (visit (lit "/bad")) (with_503 (lit "/bad"))
      label_error refl refl refl refl

server-IsBalanced_example : (server setup crash (visit (lit "/a"))).1.entries ≡ 0
server-IsBalanced_example = server-IsBalanced setup crash (visit (lit "/a")) (λ c. refl)

server-Logs_example : Logs setup (visit (lit "/a")) (server setup crash (visit (lit "/a"))).1
server-Logs_example = server-Logs setup crash (visit (lit "/a")) (λ c. refl)
