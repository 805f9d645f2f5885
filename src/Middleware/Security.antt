-- ===== src/Middleware/Security.antt =====
-- internal/middleware/security.go and recovery.go, and `RateLimit` of auth.go. The headers that they
-- add to each response are in Middleware.Writer.
use weave_server.Prelude.{
  String, Bool, true, false, not, ◌&&◌, Option, none, some, str_eq, if◌then◌else◌,
}
use weave_server.Model.{Uuid}
use weave_server.Http.{
  Method, get, head, options, post, put, patch, delete, plain_error, empty, respond, Outcome,
  answered, panicked, crashed, Site, Handler,
}
use weave_server.Middleware.RateLimiter.{RateLimiter, allow}

abbrev pub has_body : Method → Bool
has_body post = true
has_body put = true
has_body patch = true
has_body get = false
has_body head = false
has_body options = false
has_body delete = false

-- `RequireJSON`
unfoldable pub require_json : Handler → Handler
require_json next r s =
    if has_body r.method && not (str_eq r.content_type "application/json")
    then (answered (respond 415 (plain_error "content_type_must_be_application_json")), s)
    else next r s

abbrev pub is_options : Method → Bool
is_options options = true
is_options _ = false

-- `CORS`
unfoldable pub cors : Handler → Handler
cors next r s = if is_options r.method then (answered (respond 204 empty), s) else next r s

-- `RateLimit`: by the user, if the context has one.
abbrev pub limit_key : (Uuid → String) → Option Uuid → String → String
limit_key text none addr = addr
limit_key text (some user) addr = text user

unfoldable pub rate_limit : (Uuid → String) → RateLimiter → Handler → Handler
rate_limit text rl next r s =
    let (allowed, buckets) = allow rl s.clock (limit_key text r.user r.remote_addr) s.buckets in
    if allowed then next r (record s { buckets = buckets }) else (
      answered (respond 429 (plain_error "rate_limit_exceeded")),
      record s { buckets = buckets },
    )

-- The deferred call of `Recovery`.
abbrev pub recover : Outcome × Site → Outcome × Site
recover (answered resp, s) = (answered resp, s)
recover (panicked, s) = (answered (respond 500 (plain_error "internal_server_error")), s)
recover (crashed, s) = (crashed, s)

-- `Recovery`
unfoldable pub recovery : Handler → Handler
recovery next r s = recover (next r s)

-- In `Timeout` the handler runs in a goroutine of its own, where no deferred call recovers.
abbrev pub in_goroutine : Outcome × Site → Outcome × Site
in_goroutine (answered resp, s) = (answered resp, s)
in_goroutine (panicked, s) = (crashed, s)
in_goroutine (crashed, s) = (crashed, s)

-- `Timeout`
unfoldable pub timeout : Handler → Handler
timeout next r s = in_goroutine (next r s)

-- `Timeout` where the time is over before the handler has answered: 504, and the handler goes on to its
-- end in its goroutine, where a panic is no more recovered than in time. The other branch is `timeout`.
-- That its statements fail once its context is done is among the faults that a world may have.
abbrev pub late_answer : Outcome × Site → Outcome × Site
late_answer (answered resp, s) = (answered (respond 504 (plain_error "request_timeout")), s)
late_answer (panicked, s) = (crashed, s)
late_answer (crashed, s) = (crashed, s)

unfoldable pub timed_out : Handler → Handler
timed_out next r s = late_answer (next r s)
