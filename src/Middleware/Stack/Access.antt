-- ===== src/Middleware/Stack/Access.antt =====
-- Who reaches a handler: `Auth` inside the rest of the stack.
use Prim.Native.String.{len}
use weave_server.Prelude.{
  ◌≡◌, refl, ap, String, Bool, not, ◌&&◌, ltb, true, false, Option, none, some, str_eq,
  if◌then◌else◌,
}
use weave_server.Http.{
  Request, Site, Handler, Outcome, Response, answered, panicked, crashed, respond, plain_error,
}
use weave_server.Provider.{Env}
use weave_server.Service.AuthService.{Auth}
use weave_server.Middleware.RateLimiter.{RateLimiter, allow}
use weave_server.Middleware.Security.{
  require_json, cors, rate_limit, recovery, recover, timeout, limit_key, is_options, has_body,
}
use weave_server.Middleware.Idempotency.{
  Store, idempotency, once, remember_answer, is_safe, store_key,
}
use weave_server.Middleware.Auth.{auth, is_open, refuse}
use weave_server.Middleware.Stack.{serve}

-- Without a token `Auth` answers, whatever the handler.
auth_refuses :
    (env : Env) (tokens : Auth) (next : Handler) (r : Request) (s : Site)
    → is_open r.method r.path ≡ false
    → str_eq r.authorization "" ≡ true
    → auth env tokens next r s ≡ refuse "missing_authorization" s
unfolding auth
auth_refuses env tokens next r s closed missing = rw (closed, missing) refl

-- What is kept is replayed, and the refusal is not kept.
once_refuses :
    (env : Env) (tokens : Auth) (store : Store) (key : String) (o : Option Response)
    (next : Handler) (r : Request) (s : Site)
    → is_open r.method r.path ≡ false
    → str_eq r.authorization "" ≡ true
    → once store key o (auth env tokens next) r s
      ≡ once store key o (λ r' s'. refuse "missing_authorization" s') r s
unfolding once
once_refuses env tokens store key none next r s closed missing =
    ap (remember_answer store key) (auth_refuses env tokens next r s closed missing)
once_refuses env tokens store key (some resp) next r s closed missing = refl

idempotency_refuses :
    (env : Env) (tokens : Auth) (store : Store) (next : Handler) (r : Request) (s : Site)
    → is_open r.method r.path ≡ false
    → str_eq r.authorization "" ≡ true
    → idempotency store (auth env tokens next) r s
      ≡ idempotency store (λ r' s'. refuse "missing_authorization" s') r s
unfolding idempotency
idempotency_refuses env tokens store next r s closed missing =
    rw
      (
        auth_refuses env tokens next r s closed missing,
        once_refuses env tokens store (store_key r.path r.idempotency_header)
            (store.get (store_key r.path r.idempotency_header) s) next
            (record r { idempotency_key = r.idempotency_header }) s closed missing,
      )
      refl

-- The database and the store of answers are as they were.
abbrev pub Quiet : Site → Outcome × Site → Type 0
Quiet s x = (x.1.world ≡ s.world) × (x.1.answers ≡ s.answers)

either-Quiet :
    (s : Site) (b : Bool) (x y : Outcome × Site)
    → Quiet s x
    → Quiet s y
    → Quiet s (if b then x else y)
either-Quiet s true x y hx hy = hx
either-Quiet s false x y hx hy = hy

recover-Quiet : (s : Site) (x : Outcome × Site) → Quiet s x → Quiet s (recover x)
recover-Quiet s (answered resp, s') h = h
recover-Quiet s (panicked, s') h = h
recover-Quiet s (crashed, s') h = h

once-Quiet :
    (store : Store) (key : String) (o : Option Response) (r : Request) (s s' : Site)
    → Quiet s (answered (respond 401 (plain_error "")), s')
    → Quiet s (once store key o (λ r' u. refuse "missing_authorization" u) r s')
unfolding once remember_answer
once-Quiet store key none r s s' h = h
once-Quiet store key (some resp) r s s' h = h

idempotency-Quiet :
    (store : Store) (r : Request) (s s' : Site)
    → Quiet s (answered (respond 401 (plain_error "")), s')
    → Quiet s (idempotency store (λ r' u. refuse "missing_authorization" u) r s')
unfolding idempotency
idempotency-Quiet store r s s' h = either-Quiet s (is_safe r.method) _ _ h (
    either-Quiet s (str_eq r.idempotency_header "") _ _ h (
      either-Quiet s (ltb 255 (len r.idempotency_header)) _ _ h
        (once-Quiet store _ (store.get (store_key r.path r.idempotency_header) s') _ s s' h)))

-- Without the header Authorization no request gets past `Auth`, but one for an open path: its answer
-- is the same whatever the handler, and the database and the store of answers stay as they are.
pub serve_unauthorized :
    (env : Env) (tokens : Auth) (rl : RateLimiter) (store : Store) (next next' : Handler)
    (r : Request) (s : Site)
    → is_open r.method r.path ≡ false
    → str_eq r.authorization "" ≡ true
    → (serve env tokens rl store next r s ≡ serve env tokens rl store next' r s)
      × Quiet s (serve env tokens rl store next r s)
unfolding serve require_json recovery cors rate_limit
serve_unauthorized env tokens rl store next next' r s closed missing =
    let s' = record s {
      buckets = (allow rl s.clock (limit_key env.uuid_string r.user r.remote_addr) s.buckets).1;
    } in
    let refused =
      λ (h : Handler). idempotency_refuses env tokens store (timeout h) r s' closed missing in
    (
      rw (refused next, refused next') refl,
      rw (refused next) (
          either-Quiet s (has_body r.method && not (str_eq r.content_type "application/json")) _ _
            (refl, refl)
            (recover-Quiet s _ (
              either-Quiet s (is_options r.method) _ _ (refl, refl)
                (either-Quiet s
                  (allow rl s.clock (limit_key env.uuid_string r.user r.remote_addr) s.buckets).0 _
                  _ (idempotency-Quiet store r s s' (refl, refl)) (refl, refl))))),
    )
