-- ===== src/Middleware/Writer.antt =====
-- What goes out to the client: the ResponseWriter of net/http, the wrapper of it in
-- internal/middleware/idempotency.go, and the headers that the middleware of internal/middleware adds, in
-- the order of internal/server/server.go. A status is one that ends an answer. What is left out: the
-- headers that net/http adds by itself.
pub mod Recorded
pub mod Protections
use Prim.Native.String.{◌++◌ as append}
use weave_server.Prelude.{
  ℕ, String, true, not, ◌&&◌, ◌++◌, Option, none, some, List, [], ◌∷◌, str_eq, ltb, leb, any,
  if◌then◌else◌,
}
use weave_server.Http.{Request}
use weave_server.Middleware.Security.{has_body, is_options}

-- The last value that was set stands first.
abbrev pub Headers : Type 0
Headers = List (String × String)

pub record Writer : Type 0 where
  pub headers : Headers
  -- the status and the headers as they were when the status was written
  pub sent : Option (ℕ × Headers)
  pub body : String

abbrev pub set : (name value : String) → Writer → Writer
set name value w = record w { headers = (name, value) ∷ w.headers }

-- A second status is ignored.
abbrev pub status_of : ℕ → Headers → Option (ℕ × Headers) → Option (ℕ × Headers)
status_of code hs none = some (code, hs)
status_of code hs (some sent) = some sent

abbrev pub write_header : ℕ → Writer → Writer
write_header code w = record w { sent = status_of code w.headers w.sent }

-- A body without a status is sent with 200.
abbrev pub write_body : String → Writer → Writer
write_body text w = record (write_header 200 w) { body = append w.body text }

-- What a handler does with its writer.
pub data Op : Type 0 where
  set_op : (name value : String) → Op
  status_op : ℕ → Op
  write_op : String → Op

abbrev pub step : Op → Writer → Writer
step (set_op name value) w = set name value w
step (status_op code) w = write_header code w
step (write_op text) w = write_body text w

abbrev pub run : List Op → Writer → Writer
run [] w = w
run (op ∷ ops) w = run ops (step op w)

-- `idempotencyResponseWriter`: the status and the body that it has seen.
pub record Recorder : Type 0 where
  pub status : ℕ
  pub body : String

abbrev pub note : Op → Recorder → Recorder
note (set_op name value) r = r
note (status_op code) r = record r { status = code }
note (write_op text) r = record r { body = append r.body text }

abbrev pub notes : List Op → Recorder → Recorder
notes [] r = r
notes (op ∷ ops) r = notes ops (note op r)

-- `writeJSON`, and `respondJSON` where there is a body
unfoldable pub write_json : ℕ → String → List Op
write_json code text =
    set_op "Content-Type" "application/json" ∷ status_op code ∷ write_op text ∷ []

-- `Idempotency` where the key is new: what is kept, and what has gone out. The header with the key is
-- set after the handler.
unfoldable pub first_time : (key : String) → List Op → Writer → Option Recorder × Writer
first_time key ops w =
    let seen = notes ops (record { status = 200; body = "" }) in
    if leb 200 seen.status && ltb seen.status 300
    then (some seen, set "Idempotency-Key" key (run ops w))
    else (none, run ops w)

-- `Idempotency` where an answer is kept.
unfoldable pub replay_ops : Recorder → List Op
replay_ops kept =
    set_op "Idempotency-Replayed" "true" ∷ status_op kept.status ∷ write_op kept.body ∷ []

-- `SecurityHeaders`
unfoldable pub security_headers : List Op
security_headers =
    set_op "X-Content-Type-Options" "nosniff"
    ∷ set_op "X-Frame-Options" "DENY"
    ∷ set_op "X-XSS-Protection" "0"
    ∷ set_op "Strict-Transport-Security" "max-age=31536000; includeSubDomains"
    ∷ set_op "Cache-Control" "no-store"
    ∷ set_op "Content-Security-Policy" "default-src 'none'"
    ∷ []

-- `RequestID`: the header of the request, or an id that is new.
unfoldable pub request_id : (header fresh : String) → List Op
request_id header fresh = set_op "X-Request-ID" (if str_eq header "" then fresh else header) ∷ []

-- `CORS`
unfoldable pub cors_headers : (allowed : List String) → (origin : String) → List Op
cors_headers allowed origin =
    let rest =
      set_op "Access-Control-Allow-Methods" "GET, POST, PUT, DELETE, PATCH, OPTIONS"
      ∷ set_op "Access-Control-Allow-Headers"
          "Authorization, Content-Type, Idempotency-Key, X-Request-ID"
      ∷ set_op "Access-Control-Expose-Headers" "X-Request-ID, Idempotency-Key"
      ∷ set_op "Access-Control-Max-Age" "86400"
      ∷ [] in
    if any (λ a. if str_eq a "*" then true else str_eq a origin) allowed
    then set_op "Access-Control-Allow-Origin" origin ∷ rest
    else rest

-- The answer of a middleware, or what the rest of the stack does: `RequireJSON`, `SecurityHeaders`,
-- `RequestID` and `CORS`, with the headers Origin and X-Request-ID of the request.
unfoldable pub outgoing : Request → (origin request_id_header fresh : String) → List Op → List Op
unfolding write_json security_headers request_id cors_headers
outgoing r origin request_id_header fresh next =
    if has_body r.method && not (str_eq r.content_type "application/json")
    then write_json 415 "{\"error\":\"content_type_must_be_application_json\"}\n"
    else security_headers
      ++ request_id request_id_header fresh
      ++ cors_headers ("*" ∷ []) origin
      ++ (if is_options r.method then status_op 204 ∷ [] else next)
