-- ===== src/Tests/Requests.antt =====
-- The theorems on the middleware: requests to a site with one user.
use weave_server.Prelude.{false, ◌≡◌, refl, String, none, some, List, [], ◌∷◌, arith}
use weave_server.Prelude.Int.{pos, ◌-ℤ◌}
use weave_server.Prelude.Word.{wrap}
use weave_server.Http.{
  Request, Response, Site, Handler, post, status, answered, panicked, respond, plain_error,
}
use weave_server.Service.AuthService.{Auth}
use weave_server.Middleware.RateLimiter.{RateLimiter, Buckets, lookup, allow, store, take_token}
use weave_server.Middleware.RateLimiter.Refill.{served, served-Steady}
use weave_server.Middleware.Security.{require_json, recovery, cors, rate_limit, timeout, timed_out}
use weave_server.Middleware.Idempotency.{
  ResponseCodec, redis_get, redis_set, redis_store, memory_store, kept, keep, once, idempotency,
  remember_answer, replay_answer,
}
use weave_server.Middleware.Auth.{auth as auth_middleware, with_claims, as_user, is_open}
use weave_server.Middleware.Stack.{serve}
use weave_server.Middleware.Stack.Replay.{Keyed, serve_replays, serve_retry, memory_store-Stores}
use weave_server.Middleware.Stack.Late.{serve_late}
use weave_server.Middleware.Stack.Expired.{kept_for, serve_expired}
use weave_server.Middleware.Stack.Access.{Quiet, serve_unauthorized}
use weave_server.Db.{cache_get}
use weave_server.Tests.{env, world}
use weave_server.Tests.Logins.{auth}

abbrev pub limiter : RateLimiter
limiter = record { rate = pos 2; window = 10 }

served-Steady_example : served limiter "ada" (100 ∷ 105 ∷ 114 ∷ 120 ∷ []) [] ≡ 2
unfolding lookup
served-Steady_example =
    served-Steady limiter "ada" 2 100 (105 ∷ 114 ∷ 120 ∷ []) [] refl (omega arith) (omega arith)
      (omega arith) refl (omega arith, (omega arith, (omega arith, tt)))

abbrev request : Request
request = record {
  method = post;
  path = "/api/v1/transfers";
  remote_addr = "10.0.0.1";
  content_type = "application/json";
  authorization = "";
  idempotency_header = "K7";
  body = "{}";
  user = none;
  idempotency_key = "";
}

abbrev created : Response
created = record { code = 201; body = status "done"; replayed = false }

-- A handler that always creates something.
abbrev creator : Handler
creator r s = (answered created, s)

abbrev pub site : List (String × Response) → Site
site kept_answers = record { world = world; buckets = []; answers = kept_answers; clock = 100 }

abbrev after_one : Buckets
after_one = ("10.0.0.1", record { tokens = pos 1; last = 100 }) ∷ []

-- A token that is read as the user's.
abbrev pub reader : Auth
reader = record auth {
  read_token = λ now token. some (record { scope = "access"; subject = "20" });
}

abbrev pub signed : Request
signed = record request { authorization = "Bearer x" }

request-Keyed : Keyed request
request-Keyed = record { writes = refl; json = refl; has_key = refl; short = refl }

signed-Keyed : Keyed signed
signed-Keyed = record { writes = refl; json = refl; has_key = refl; short = refl }

serve_replays_example :
    serve env reader limiter memory_store creator request
      (site (("/api/v1/transfers:K7", created) ∷ []))
    ≡ (
      replay_answer created,
      record (site (("/api/v1/transfers:K7", created) ∷ [])) { buckets = after_one },
    )
unfolding allow lookup store take_token wrap ◌-ℤ◌ kept
serve_replays_example =
    serve_replays env reader limiter memory_store creator request
      (site (("/api/v1/transfers:K7", created) ∷ [])) after_one created request-Keyed refl refl

serve_retry_example :
    serve env reader limiter memory_store creator request
      (record (site (("/api/v1/transfers:K7", created) ∷ [])) { clock = 200 })
    ≡ (
      replay_answer created,
      record (site (("/api/v1/transfers:K7", created) ∷ [])) {
        clock = 200;
        buckets = ("10.0.0.1", record { tokens = pos 1; last = 200 }) ∷ [];
      },
    )
unfolding allow lookup store take_token wrap ◌-ℤ◌ serve require_json recovery cors rate_limit
    idempotency kept once remember_answer keep auth_middleware with_claims as_user timeout is_open
serve_retry_example =
    serve_retry env reader limiter memory_store creator creator signed request (site [])
      (record (site (("/api/v1/transfers:K7", created) ∷ [])) { buckets = after_one })
      (record (site (("/api/v1/transfers:K7", created) ∷ [])) { clock = 200 }) after_one
      (("10.0.0.1", record { tokens = pos 1; last = 200 }) ∷ []) created signed-Keyed refl refl refl
      request-Keyed refl (memory_store-Stores "/api/v1/transfers:K7" created) refl refl

serve_unauthorized_example :
    (serve env reader limiter memory_store creator request (site [])
      ≡ serve env reader limiter memory_store (λ r s. (panicked, s)) request (site []))
    × Quiet (site []) (serve env reader limiter memory_store creator request (site []))
unfolding is_open
serve_unauthorized_example =
    serve_unauthorized env reader limiter memory_store creator (λ r s. (panicked, s)) request
      (site []) refl refl

-- The first time it takes too long.
serve_late_example :
    (serve env reader limiter memory_store (timed_out creator) signed (site []) ≡ (
      answered (respond 504 (plain_error "request_timeout")),
      record (site []) { buckets = after_one },
    ))
    × (serve env reader limiter memory_store creator signed (record (site []) { clock = 200 })
        ≡ remember_answer memory_store "/api/v1/transfers:K7" (
          answered created,
          record (site []) {
            clock = 200;
            buckets = ("10.0.0.1", record { tokens = pos 1; last = 200 }) ∷ [];
          },
        ))
unfolding allow lookup store take_token wrap ◌-ℤ◌ kept auth_middleware with_claims as_user is_open
serve_late_example =
    serve_late env reader limiter memory_store creator creator signed signed
      (record signed { user = some 20; idempotency_key = "K7" })
      (record signed { user = some 20; idempotency_key = "K7" }) (site [])
      (record (site []) { buckets = after_one }) (record (site []) { clock = 200 })
      (record (site []) {
        clock = 200;
        buckets = ("10.0.0.1", record { tokens = pos 1; last = 200 }) ∷ [];
      })
      after_one (("10.0.0.1", record { tokens = pos 1; last = 200 }) ∷ []) created created
      signed-Keyed refl refl (λ next. refl) refl refl signed-Keyed refl refl refl (λ next. refl)
      refl

-- A codec that knows one answer.
abbrev pub codec : ResponseCodec
codec = record { encode = λ resp. "created"; decode = λ text. some created }

-- A day after the first answer.
abbrev day_later : Site
day_later =
    kept_for codec "/api/v1/transfers:K7" created 86400 (record (site []) { buckets = after_one })

-- From another address.
abbrev moved : Request
moved = record signed { remote_addr = "10.0.0.2" }

abbrev both_seen : Buckets
both_seen =
    ("10.0.0.1", record { tokens = pos 1; last = 100 })
    ∷ ("10.0.0.2", record { tokens = pos 1; last = 86500 })
    ∷ []

moved-Keyed : Keyed moved
moved-Keyed = record { writes = refl; json = refl; has_key = refl; short = refl }

serve_expired_example :
    (serve env reader limiter (redis_store codec) creator signed (site []) ≡ (
      answered created,
      redis_set codec "/api/v1/transfers:K7" created (record (site []) { buckets = after_one }),
    ))
    × (serve env reader limiter (redis_store codec) creator moved day_later
        ≡ remember_answer
            (redis_store codec)
            "/api/v1/transfers:K7"
            (answered created, record day_later { buckets = both_seen }))
unfolding allow lookup store take_token wrap ◌-ℤ◌ auth_middleware with_claims as_user is_open
    redis_get redis_set cache_get
serve_expired_example =
    serve_expired env reader limiter codec creator creator signed moved
      (record signed { user = some 20; idempotency_key = "K7" })
      (record moved { user = some 20; idempotency_key = "K7" }) (site [])
      (record (site []) { buckets = after_one }) (record day_later { buckets = both_seen })
      after_one both_seen created created 86400 refl refl signed-Keyed refl refl (λ next. refl) refl
      moved-Keyed refl refl (λ next. refl) refl
