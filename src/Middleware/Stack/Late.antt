-- ===== src/Middleware/Stack/Late.antt =====
-- What comes of a request that times out: `Timeout` and `Idempotency` inside the rest of the stack.
use weave_server.Prelude.{◌≡◌, refl, ◌∙◌, String, none, Bool-cases, inl, inr}
use weave_server.Http.{Request, Site, Handler, Response, answered, respond, plain_error}
use weave_server.Provider.{Env}
use weave_server.Service.AuthService.{Auth}
use weave_server.Middleware.RateLimiter.{RateLimiter, Buckets}
use weave_server.Middleware.Security.{timeout, timed_out, recover}
use weave_server.Middleware.Idempotency.{Store, once, remember_answer}
use weave_server.Middleware.Auth.{auth}
use weave_server.Middleware.Stack.{serve}
use weave_server.Middleware.Stack.Replay.{Keyed, Allowed, key_of, succeeded, serve_inward}

abbrev with_key : Request → Request
with_key r = record r { idempotency_key = r.idempotency_header }

-- `Auth` lets the request through, and the handler gets it with its user.
abbrev pub LetIn : Env → Auth → Request → Site → Request → Type 0
LetIn env tokens r s inner = (next : Handler) → auth env tokens next (with_key r) s ≡ next inner s

recover-remember_answer :
    (store : Store) (key : String) (resp : Response) (s : Site)
    → recover (remember_answer store key (answered resp, s))
      ≡ remember_answer store key (answered resp, s)
unfolding remember_answer
recover-remember_answer store key resp s = elim (Bool-cases (succeeded resp)) [
  | inl good ↦ rw good refl
  | inr bad ↦ rw bad refl
]

-- The way in to the handler, where the store has no answer.
pub serve_first :
    (env : Env) (tokens : Auth) (rl : RateLimiter) (store : Store) (next : Handler)
    (r inner : Request) (s s' : Site) (buckets : Buckets) (resp : Response)
    → Keyed r
    → Allowed env rl r s buckets
    → store.get (key_of r) (record s { buckets = buckets }) ≡ none
    → LetIn env tokens r (record s { buckets = buckets }) inner
    → next inner (record s { buckets = buckets }) ≡ (answered resp, s')
    → serve env tokens rl store next r s ≡ remember_answer store (key_of r) (answered resp, s')
unfolding once timeout
serve_first env tokens rl store next r inner s s' buckets resp k allowed new inside runs =
    serve_inward env tokens rl store next r s buckets k allowed
    ∙ rw (new, inside (timeout next), runs) (recover-remember_answer store (key_of r) resp s')

-- Over any store of answers, a write with JSON, a new key of at most 255 bytes and a token that is
-- right, whose handler answers only after `Timeout` has: the answer is 504, all that the handler does
-- stays, and no answer is kept, be the handler's a success or not. So the same request again, let
-- through by the rate limiter and with a token that is right, goes to its handler a second time,
-- as long as nothing has been put under its key since.
pub serve_late :
    (env : Env) (tokens : Auth) (rl : RateLimiter) (store : Store) (next next' : Handler)
    (r r' inner inner' : Request) (s s' t t' : Site) (buckets buckets' : Buckets)
    (resp resp' : Response)
    → Keyed r
    → Allowed env rl r s buckets
    → store.get (key_of r) (record s { buckets = buckets }) ≡ none
    → LetIn env tokens r (record s { buckets = buckets }) inner
    → next inner (record s { buckets = buckets }) ≡ (answered resp, s')
    → store.get (key_of r) s' ≡ none
    → Keyed r'
    → key_of r' ≡ key_of r
    → Allowed env rl r' t buckets'
    → store.get (key_of r) (record t { buckets = buckets' }) ≡ store.get (key_of r) s'
    → LetIn env tokens r' (record t { buckets = buckets' }) inner'
    → next' inner' (record t { buckets = buckets' }) ≡ (answered resp', t')
    → (serve env tokens rl store (timed_out next) r s
        ≡ (answered (respond 504 (plain_error "request_timeout")), s'))
      × (serve env tokens rl store next' r' t
          ≡ remember_answer store (key_of r') (answered resp', t'))
unfolding timed_out remember_answer
serve_late env tokens rl store next next' r r' inner inner' s s' t t' buckets buckets' resp resp' k
      allowed new inside runs untouched k' same_key allowed' same_answers inside' runs' =
    (
      serve_first env tokens rl store (timed_out next) r inner s s' buckets
          (respond 504 (plain_error "request_timeout")) k allowed new inside (rw runs refl),
      serve_first env tokens rl store next' r' inner' t t' buckets' resp' k' allowed'
          (rw same_key (same_answers ∙ untouched)) inside' runs',
    )
