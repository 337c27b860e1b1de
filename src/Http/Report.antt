-- ===== src/Http/Report.antt =====
-- http/logger.go, http/trace.go and http/metrics.go: middleware that reports what the handlers did.
pub mod Unique
mod Tests
use motor.Base.{
  ℕ, ◌-◌, ◌%◌, ◌/◌, ◌^◌, Text, lit, insert, Bool, false, Option, none, some, [], ◌∷◌, ◌++◌,
  is_empty, text_eq, leb, if◌then◌else◌,
}
use motor.Trace.{context_value, tracer_ctx_key}
use motor.Http.Request.{
  nil_pointer, label_error, Ending, done, panics, Span, Ctx, Size, unwritten, written, access,
  inject_failed, Request, Middleware, Library, get_header,
}

-- ReqCnt, ReqDur and ReqErr, by the paths that they take as a label; WithLabelValues panics of
-- another.
pub record Vectors : Type 0 where
  pub accepts : Text → Bool

unfoldable pub or_dash : Text → Text
or_dash t = if is_empty t then lit "-" else t

unfoldable pub with_query : Text → Text → Text
with_query path raw = if is_empty raw then path else path ++ (lit "?" ++ raw)

module _ {S : Type 0} where
  -- The context with the span that is started for a request, a child of the one in its header.
  unfoldable pub context_of : Library S → Request S → Ctx S
  context_of lib c =
      let span = lib.start_span c.path (lib.extract c.header) in
      record { span = span; metadata = (lib.inject span).0 }

  -- The request that c.Next runs the handlers with. An error of tracer.Inject is logged, no more.
  unfoldable pub traced : Library S → Request S → Request S
  unfolding context_of
  traced lib c = record c {
    logs =
        if (lib.inject (context_of lib c).span).1
        then c.logs ++ (inject_failed c.client_ip c.path c.method ∷ [])
        else c.logs;
    keys = insert tracer_ctx_key (context_value (context_of lib c)) c.keys;
  }

  -- The tags are set after c.Next; a panic leaves them out, and the deferred Finish runs.
  unfoldable pub span_of : Text → Option S → Ending → Request S → Span S
  span_of name parent done c = record {
    name = name;
    parent = parent;
    status = some (c.status % 2 ^ 16);
    method = some c.method;
    url = some c.escaped_path;
    error = leb 500 c.status;
  }
  span_of name parent (panics p) c = record {
    name = name;
    parent = parent;
    status = none;
    method = none;
    url = none;
    error = false;
  }

  unfoldable pub tagged : Text → Option S → Ending × Request S → Ending × Request S
  unfolding span_of
  tagged name parent (e, c) = (e, record c { spans = c.spans ++ (span_of name parent e c ∷ []) })

  unfoldable pub trace : Library S → Middleware S
  unfolding tagged traced
  trace lib next c =
      if lib.registered then tagged c.path (lib.extract c.header) (next (traced lib c)) else next c

  -- From `status := c.Writer.Status()` on, for a request that came at `start`; 10^6 ns are 1 ms.
  unfoldable pub observe : ℕ → Request S → Request S
  observe start c = record c {
    counted = c.counted ++ ((c.path, c.status) ∷ []);
    observed = c.observed ++ ((c.path, (c.now - start) / 1000000) ∷ []);
    failed = if leb 500 c.status then c.failed ++ ((c.path, c.status) ∷ []) else c.failed;
  }

  unfoldable pub count_request : Option Vectors → ℕ → Ending × Request S → Ending × Request S
  unfolding observe
  count_request vectors start (panics p, c) = (panics p, c)
  count_request none start (done, c) = (panics nil_pointer, c)
  count_request (some v) start (done, c) =
      if v.accepts c.path then (done, observe start c) else (panics label_error, c)

  -- Requests of the metrics' own path are not counted. There are no vectors before metrics.Init.
  unfoldable pub metrics : Option Vectors → Text → Middleware S
  unfolding count_request
  metrics vectors default_path next c =
      if text_eq c.path default_path then next c else count_request vectors c.now (next c)

  unfoldable pub size_text : Library S → Size → Text
  size_text lib unwritten = lit "-1"
  size_text lib (written n) = lib.decimal n

  -- The access log
  unfoldable pub access_log : Library S → Request S → Text
  unfolding size_text or_dash get_header
  access_log lib c =
      c.client_ip
      ++ (lit " - - ["
          ++ (lib.format_time c.now
              ++ (lit "] \""
                  ++ (c.method
                      ++ (lit " "
                          ++ (c.path
                              ++ (lit " "
                                  ++ (c.proto
                                      ++ (lit "\" "
                                          ++ (lib.decimal c.status
                                              ++ (lit " "
                                                  ++ (size_text lib c.size
                                                      ++ (lit " \""
                                                          ++ (or_dash
                                                            (get_header (lit "Referer") c.header)
                                                            ++ (lit "\" \""
                                                            ++ (get_header (lit "User-Agent")
                                                            c.header
                                                            ++ lit "\""))))))))))))))))

  -- What is logged of a request that came as `c`, once the handlers have made `d` of it.
  unfoldable pub access_of : Library S → Request S → Request S → Request S
  unfolding access_log with_query
  access_of lib c d = record d {
    logs =
        d.logs
        ++ (access (access_log lib d) (with_query c.path c.raw_query) (d.now - c.now) d.errors
            ∷ []);
  }

  unfoldable pub logged : Library S → Request S → Ending × Request S → Ending × Request S
  unfolding access_of
  logged lib c (panics p, d) = (panics p, d)
  logged lib c (done, d) = (done, access_of lib c d)

  unfoldable pub logger : Library S → Middleware S
  unfolding logged
  logger lib next c = logged lib c (next c)
