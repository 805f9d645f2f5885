-- ===== src/Middleware/Stack.antt =====
-- internal/server/server.go: the order in which setupMiddleware puts the middleware, outermost
-- first. What only adds headers, traces or logs is left out.
pub mod Replay
pub mod Access
pub mod Late
pub mod Expired
use weave_server.Prelude.{if◌then◌else◌, ◌≡◌, true, false, not, ◌&&◌, str_eq, arith}
use weave_server.Http.{Handler, Request}
use weave_server.Provider.{Env}
use weave_server.Service.AuthService.{Auth}
use weave_server.Middleware.RateLimiter.{RateLimiter}
use weave_server.Middleware.Security.{has_body, require_json, cors, rate_limit, recovery, timeout}
use weave_server.Middleware.Idempotency.{
  Store, ResponseCodec, memory_store, redis_store, idempotency,
}
use weave_server.Middleware.Auth.{auth}

-- The store of answers that `setupMiddleware` chooses.
abbrev pub chosen_store : Env → ResponseCodec → Store
chosen_store env codec = if env.has_redis then redis_store codec else memory_store

-- `setupMiddleware`, over that store
unfoldable pub serve : Env → Auth → RateLimiter → Store → Handler → Handler
serve env tokens rl store next = require_json (
    recovery
      (cors (rate_limit env.uuid_string rl (idempotency store (auth env tokens (timeout next))))))

-- `RequireJSON` lets JSON through.
pub json_passes :
    (r : Request)
    → str_eq r.content_type "application/json" ≡ true
    → has_body r.method && not (str_eq r.content_type "application/json") ≡ false
json_passes r json = ground (arith)
