-- ===== src/Http/Request.antt =====
-- What the middleware of http/ sees and changes of a gin context, and the libraries that it calls.
use motor.Base.{
  ℕ, ◌+◌, Text, Dict, lookup, Bool, true, Option, none, some, List, [], ◌∷◌, ◌++◌, length,
}
use motor.Trace.{Stored}

-- What recover() gives: a *net.OpError over an os.SyscallError with this text, or something else, of
-- which Metrics has a nil vector and a label that is refused.
pub data Panic : Type 0 where
  syscall_error : Text → Panic
  other_panic : ℕ → Panic
  nil_pointer label_error : Panic

pub data Ending : Type 0 where
  done : Ending
  panics : Panic → Ending

-- A span that is finished: its operation, its parent, and its tags, with ext.Error.
pub record Span (S : Type 0) : Type 0 where
  pub name : Text
  pub parent : Option S
  pub status : Option ℕ
  pub method : Option Text
  pub url : Option Text
  pub error : Bool

-- A context.Context with a span, of which it holds the span's context, and metadata.
pub record Ctx (S : Type 0) : Type 0 where
  pub span : S
  pub metadata : Dict Text

-- c.Writer.Size(), which is -1 as long as nothing is written.
pub data Size : Type 0 where
  unwritten : Size
  written : ℕ → Size

-- What is logged: an access log with its fields, path, latency and errmsg; and two errors.
pub data Line : Type 0 where
  access : Text → Text → ℕ → List Panic → Line
  catch_panic : Panic → Line
  inject_failed : Text → Text → Text → Line

-- A request on its way: c.Request, c.Keys, the answer, c.Errors, where `status` is
-- c.Writer.Status() and `sent` the status that went to the client, once the header is written; and what is reported of it: the
-- log, the spans, the sentinel entries that have not exited, the labels that ReqCnt and ReqErr were
-- incremented with, and the milliseconds that ReqDur observed. `now` is the clock.
pub record Request (S : Type 0) : Type 0 where
  pub method : Text
  pub path : Text
  pub raw_query : Text
  pub escaped_path : Text
  pub proto : Text
  pub client_ip : Text
  pub header : Dict Text
  pub keys : Dict (Stored (Ctx S))
  pub status : ℕ
  pub sent : Option ℕ
  pub size : Size
  pub replies : List (Text × Text)
  pub aborted : Bool
  pub errors : List Panic
  pub logs : List Line
  pub spans : List (Span S)
  pub entries : ℕ
  pub counted : List (Text × ℕ)
  pub failed : List (Text × ℕ)
  pub observed : List (Text × ℕ)
  pub now : ℕ

abbrev pub Handler : Type 0 → Type 0
Handler S = Request S → Ending × Request S

-- A middleware is a function of what its c.Next runs.
abbrev pub Middleware : Type 0 → Type 0
Middleware S = Handler S → Handler S

-- opentracing's global tracer, time.Time.Format in the local zone, and `%d`. `inject` gives the
-- carrier, and whether it failed.
pub record Library (S : Type 0) : Type 0 where
  pub registered : Bool
  pub extract : Dict Text → Option S
  pub start_span : Text → Option S → S
  pub inject : S → Dict Text × Bool
  pub format_time : ℕ → Text
  pub decimal : ℕ → Text

or_empty : Option Text → Text
or_empty none = []
or_empty (some t) = t

-- c.Request.Header.Get of a name in its canonical form
unfoldable pub get_header : Text → Dict Text → Text
unfolding or_empty
get_header name header = or_empty (lookup name header)

-- The size after `n` more bytes.
unfoldable pub grow : ℕ → Size → Size
grow n unwritten = written n
grow n (written m) = written (m + n)

-- A header that is written stays, whatever status is set later.
unfoldable pub send : ℕ → Option ℕ → Option ℕ
send status none = some status
send status (some first) = some first

module _ {S : Type 0} where
  -- c.AbortWithStatus, which writes the header.
  unfoldable pub abort_with_status : ℕ → Request S → Request S
  unfolding grow send
  abort_with_status status c = record c {
    status = status;
    sent = send status c.sent;
    size = grow 0 c.size;
    aborted = true;
  }

  -- c.Data
  unfoldable pub data_of : ℕ → Text → Text → Request S → Request S
  unfolding grow send
  data_of status content_type text c = record c {
    status = status;
    sent = send status c.sent;
    size = grow (length text) c.size;
    replies = c.replies ++ ((content_type, text) ∷ []);
  }
