-- ===== src/Http/Report/Tests.antt =====
-- Two requests with one line in the access log.
use motor.Base.{
  is_empty, lookup, text_eq, ℕ, Text, lit, ◌≡◌, refl, Bool, true, false, ◌&&◌, not, [], ◌∷◌, none,
  ◌==◌, ==_iff, arith,
}
use motor.Http.Request.{Request, Library, unwritten, get_header}
use motor.Http.Report.{access_log, size_text, or_dash}
use motor.Http.Report.Unique.{Lacks, IsPlain, referer, user_agent, Tells, access_log-IsPlain}

abbrev lacks : ℕ → Text → Bool
lacks b [] = true
lacks b (x ∷ t) = not (x == b) && lacks b t

lacks-Lacks : (b : ℕ) (t : Text) → lacks b t ≡ true → Lacks b t
lacks-Lacks b [] e = tt
lacks-Lacks b (x ∷ t) e = (ground (arith, ==_iff x b, e), lacks-Lacks b t (ground (arith, e)))

abbrev plain_lib : Library Text
plain_lib = record {
  registered = false;
  extract = λ header. none;
  start_span = λ name parent. name;
  inject = λ span. ([], false);
  format_time = λ n. lit "01/Jan/2020:00:00:00";
  decimal = λ n. 48 ∷ [];
}

abbrev early : Request Text
early = record {
  method = lit "GET";
  path = lit "/a";
  raw_query = [];
  escaped_path = lit "/a";
  proto = lit "HTTP/1.1";
  client_ip = lit "::1";
  header = (lit "User-Agent", lit "curl/7.1") ∷ [];
  keys = [];
  status = 200;
  sent = none;
  size = unwritten;
  replies = [];
  aborted = false;
  errors = [];
  logs = [];
  spans = [];
  entries = 0;
  counted = [];
  failed = [];
  observed = [];
  now = 1;
}

abbrev at : ℕ → Text → Request Text
at n query = record early { now = n; raw_query = query }

at-IsPlain : (n : ℕ) (query : Text) → IsPlain plain_lib (at n query)
unfolding size_text or_dash is_empty get_header lookup text_eq
at-IsPlain n query = record {
  plain_ip = lacks-Lacks 32 early.client_ip refl;
  plain_time = lacks-Lacks 93 (plain_lib.format_time n) refl;
  plain_method = lacks-Lacks 32 early.method refl;
  plain_path = lacks-Lacks 32 early.path refl;
  plain_proto = lacks-Lacks 34 early.proto refl;
  plain_status = lacks-Lacks 32 (plain_lib.decimal 200) refl;
  plain_size = lacks-Lacks 32 (size_text plain_lib unwritten) refl;
  plain_referer = lacks-Lacks 34 (referer plain_lib early) refl;
  plain_agent = lacks-Lacks 34 (user_agent plain_lib early) refl;
}

access_log-IsPlain_example : Tells plain_lib (at 1 []) (at 2 (lit "q=1"))
unfolding access_log
access_log-IsPlain_example =
    access_log-IsPlain plain_lib (at 1 []) (at 2 (lit "q=1")) (at-IsPlain 1 [])
      (at-IsPlain 2 (lit "q=1")) refl
