-- ===== src/Http/Server/Tests/Queries.antt =====
-- A query of a handler, behind a server.
use motor.Base.{ℕ, ◌+◌, refl, Text, lit, true, some, [], ◌∷◌, length}
use motor.Base.Outcome.{returned}
use motor.Trace.{TJaeger}
use motor.Mysql.Conn.{Db}
use motor.Mysql.Query.{Run}
use motor.Mysql.Query
use motor.Http.Request.{Ctx, done, Handler}
use motor.Http.Server.Traced.{Spanned, server-methods}
use motor.Http.Server.Tests.{setup, visit}

-- A database of one number, which is what a scan gives.
abbrev numbers : Query.Library ℕ ℕ ℕ ℕ ℕ
numbers = record {
  build_select = λ table n fields. returned (some (lit "select", n ∷ []));
  build_insert = λ table ns. returned (some (lit "insert", ns));
  build_update = λ table n value. returned (some (lit "update", value ∷ n ∷ []));
  named_query = λ query n. returned (some (query, n ∷ []));
  query = λ db cond vals. returned (some 7);
  exec = λ db cond vals. returned (some 1);
  scan = λ rows. returned (some rows);
  last_insert_id = λ n. some n;
  rows_affected = λ n. some n;
}

abbrev users : Db
users = record {
  db = record {
    id = 0;
    settings = record {
      source = record {
        dbname = lit "user";
        username = lit "motor";
        password = [];
        ip = lit "a";
        port = 3306;
        timeout = 1;
        read_timeout = 1;
        write_timeout = 1;
      };
      max_idle = 2;
      max_open = 8;
      lifetime = 60;
    };
  };
  is_master = true;
  dbname = lit "user";
  table = lit "users";
}

-- A handler that answers with what a query does, in number.
abbrev reply : Run (Ctx Text) ℕ ℕ ℕ → Handler Text
reply (outcome, effects) c = (done, record c { status = 200 + length effects })

abbrev jaeger : TJaeger ℕ
jaeger = record { service_name = lit "motor"; closer = 0 }

server-methods_example :
    Spanned numbers jaeger users 0 setup (visit (lit "/a")) reply reply 1 2 [] (3 ∷ []) (lit "q")
server-methods_example =
    server-methods numbers jaeger users 0 setup (visit (lit "/a")) reply reply 1 2 [] (3 ∷ [])
      (lit "q") refl
