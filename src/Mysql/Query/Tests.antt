-- ===== src/Mysql/Query/Tests.antt =====
-- Runs of the methods of mysql/sql.go, and their theorems at concrete inputs.
use motor.Base.{
  ℕ, Text, lit, Dict, ◌≡◌, refl, inr, Option, none, some, List, [], ◌∷◌, true, ◌==◌, if◌then◌else◌,
  length, lookup, text_eq,
}
use motor.Base.Outcome.{Outcome, returned, panicked}
use motor.Mysql.Types.{Settings}
use motor.Mysql.Conn.{Db}
use motor.Trace.{TJaeger, Stored, context_value, tracer_ctx_key}
use motor.Mysql.Query.{
  Library, get_list, insert, update, named_query, get_row, starts_span, finishes_span, queries,
  opens_rows, closes_rows, logs_slow, err, with_message, scan_failed,
}
use motor.Mysql.Query.Tidy.{IsTidy, methods-IsTidy}
use motor.Mysql.Query.Answers.{Does, Finds, Changes, methods-Does}

abbrev settings_of_db : Settings
settings_of_db = record {
  source = record {
    dbname = lit "user";
    username = lit "motor";
    password = [];
    ip = lit "a";
    port = 3306;
    timeout = 1;
    read_timeout = 1;
    write_timeout = 1;
  };
  max_idle = 2;
  max_open = 8;
  lifetime = 60;
}

abbrev users : Db
users = record {
  db = record { id = 0; settings = settings_of_db };
  is_master = true;
  dbname = lit "user";
  table = lit "users";
}

-- Conditions are an age, rows that age's names; a scan of no rows is an error, of age 9 a panic.
abbrev scan_names : List Text → Outcome (Option Text)
scan_names [] = returned none
scan_names (name ∷ []) = returned (some name)
scan_names (name ∷ other ∷ names) = panicked

abbrev names_of : ℕ → List Text
names_of age =
    if age == 18 then lit "ann" ∷ [] else if age == 9 then lit "bob" ∷ lit "cid" ∷ [] else []

abbrev aged : List ℕ → Outcome (Option (List Text))
aged [] = returned none
aged (age ∷ vals) = returned (some (names_of age))

abbrev lib : Library ℕ ℕ (List Text) ℕ Text
lib = record {
  build_select =
      λ table age fields. returned (if age == 0 then none else some (lit "select", age ∷ []));
  build_insert = λ table ages. returned (some (lit "insert", ages));
  build_update = λ table age value. returned (some (lit "update", value ∷ age ∷ []));
  named_query = λ query age. returned (some (query, age ∷ []));
  query = λ db cond vals. aged vals;
  exec = λ db cond vals. returned (some (length vals));
  scan = scan_names;
  last_insert_id = λ n. some n;
  rows_affected = λ n. some n;
}

abbrev tracer : Option (TJaeger ℕ)
tracer = some (record { service_name = lit "motor"; closer = 0 })

abbrev request : Dict (Stored ℕ)
request = (tracer_ctx_key, context_value 5) ∷ []

-- The scanner panics; the rows, the slow log and the span come after it in this order.
get_list_panics : get_list lib tracer (some request) users 400000000 9 [] ≡ (
  panicked,
  starts_span 5 (lit "GetList")
      ∷ queries users.db (lit "select") (9 ∷ [])
      ∷ opens_rows (lit "bob" ∷ lit "cid" ∷ [])
      ∷ closes_rows (lit "bob" ∷ lit "cid" ∷ [])
      ∷ logs_slow (lit "select") (9 ∷ [])
      ∷ finishes_span (lit "GetList")
      ∷ [],
)
unfolding get_list motor.Trace.get_trace_ctx lookup text_eq
get_list_panics = refl

get_row_missing : get_row {X = ℕ} lib tracer none users 1 20 [] ≡ (
  returned (err (with_message scan_failed)),
  queries users.db (lit "select") (20 ∷ []) ∷ opens_rows [] ∷ closes_rows [] ∷ [],
)
unfolding get_row
get_row_missing = refl

methods-IsTidy_example :
    IsTidy (get_list lib tracer (some request) users 400000000 9 []).1
    × IsTidy (get_row lib tracer (some request) users 400000000 9 []).1
    × IsTidy (insert lib tracer (some request) users 400000000 (9 ∷ [])).1
    × IsTidy (update lib tracer (some request) users 400000000 9 10).1
    × IsTidy (named_query lib tracer (some request) users 400000000 (lit "select") 10).1
methods-IsTidy_example =
    methods-IsTidy lib tracer (some request) users 400000000 9 10 [] (9 ∷ []) (lit "select")

methods-Does_example :
    Does
      (lib.build_select (lit "users") 18 [])
      (Finds lib tracer (some request) users 1)
      (get_list lib tracer (some request) users 1 18 [])
    × Does
        (lib.named_query (lit "select") 19)
        (Finds lib tracer (some request) users 1)
        (named_query lib tracer (some request) users 1 (lit "select") 19)
    × Does
        (lib.build_insert (lit "users") (18 ∷ []))
        (Changes lib tracer (some request) users 1 lib.last_insert_id)
        (insert lib tracer (some request) users 1 (18 ∷ []))
    × Does
        (lib.build_update (lit "users") 18 19)
        (Changes lib tracer (some request) users 1 lib.rows_affected)
        (update lib tracer (some request) users 1 18 19)
methods-Does_example =
    methods-Does lib tracer (some request) users 1 18 19 [] (18 ∷ []) (lit "select") (inr (λ e. cc))
