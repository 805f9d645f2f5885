-- ===== src/Middleware/Stack/Replay.antt =====
-- What a repeated request is answered: `Idempotency` inside the rest of the stack.
use weave_server.Prelude.{
  ◌≡◌, refl, sym, ◌∙◌, ap, subst, Bool-cases, inl, inr, String, ℕ, Bool, true, false, ◌&&◌, Option,
  none, some, str_eq, arith, ltb, leb, eq_iff,
}
use Prim.Native.String.{len}
use weave_server.Http.{
  Request, Method, Site, Handler, Outcome, Response, answered, panicked, crashed,
}
use weave_server.Provider.{Env}
use weave_server.Service.AuthService.{Auth}
use weave_server.Middleware.RateLimiter.{RateLimiter, Buckets, allow}
use weave_server.Middleware.Security.{
  require_json, cors, rate_limit, recovery, recover, timeout, limit_key, is_options,
}
use weave_server.Middleware.Idempotency.Expiry.{redis_get-now}
use weave_server.Middleware.Idempotency.{
  ResponseCodec, redis_store, Store, memory_store, idempotency, once, kept, remember_answer,
  is_safe, store_key, keep, replay_answer,
}
use weave_server.Middleware.Auth.{auth}
use weave_server.Middleware.Stack.{serve, json_passes}

-- A request that carries a key of at most 255 bytes, and that `RequireJSON` lets through.
pub record Keyed (r : Request) : Type 0 where
  pub writes : is_safe r.method ≡ false
  pub json : str_eq r.content_type "application/json" ≡ true
  pub has_key : str_eq r.idempotency_header "" ≡ false
  pub short : ltb 255 (len r.idempotency_header) ≡ false

abbrev pub key_of : Request → String
key_of r = store_key r.path r.idempotency_header

-- The rate limiter lets the request through, and leaves these buckets.
abbrev pub Allowed : Env → RateLimiter → Request → Site → Buckets → Type 0
Allowed env rl r s buckets =
    allow rl s.clock (limit_key env.uuid_string r.user r.remote_addr) s.buckets ≡ (true, buckets)

writes-options : (m : Method) → is_safe m ≡ false → is_options m ≡ false
writes-options m h = ground arith

-- The way in to the store of answers.
pub serve_inward :
    (env : Env) (tokens : Auth) (rl : RateLimiter) (store : Store) (next : Handler) (r : Request)
    (s : Site) (buckets : Buckets)
    → Keyed r
    → Allowed env rl r s buckets
    → serve env tokens rl store next r s
      ≡ recover (
          once store
            (key_of r)
            (store.get (key_of r) (record s { buckets = buckets }))
            (auth env tokens (timeout next))
            (record r { idempotency_key = r.idempotency_header })
            (record s { buckets = buckets }))
unfolding serve require_json recovery cors rate_limit idempotency
serve_inward env tokens rl store next r s buckets k allowed =
    rw
      (
        json_passes r k.json,
        writes-options r.method k.writes,
        allowed,
        k.writes,
        k.has_key,
        k.short,
      )
      refl

-- Is the status one of success?
abbrev pub succeeded : Response → Bool
succeeded resp = leb 200 resp.code && ltb resp.code 300

abbrev pub as_replayed : Option Response → Option Response
as_replayed none = none
as_replayed (some resp) = some (record resp { replayed = true })

abbrev answer_or_crash : Option Response → Site → Outcome × Site
answer_or_crash none s = (crashed, s)
answer_or_crash (some resp) s = (answered resp, s)

abbrev reply : Outcome → Option Response
reply (answered resp) = some resp
reply panicked = none
reply crashed = none

abbrev code_of : Outcome → ℕ
code_of (answered resp) = resp.code
code_of panicked = 0
code_of crashed = 0

-- The answer that was sent is the one in the store, but for the header Idempotency-Replayed.
abbrev Remembered : Store → String → Outcome × Site → Type 0
Remembered store key x = as_replayed (store.get key x.1) ≡ as_replayed (reply x.0)

abbrev StoresIt : Store → String → Site → Option Response → Type 0
StoresIt store key s none = Unit {0}
StoresIt store key s (some resp) =
    as_replayed (store.get key (store.set key resp s)) ≡ as_replayed (some resp)

-- What is put in the store is found there.
abbrev pub Stores : Store → String → Response → Type 0
Stores store key resp =
    (s : Site) → as_replayed (store.get key (store.set key resp s)) ≡ as_replayed (some resp)

pub memory_store-Stores : (key : String) (resp : Response) → Stores memory_store key resp
unfolding kept keep
memory_store-Stores key resp s = rw ((eq_iff key key).1 refl) refl

-- In Redis, if json reads what it has written.
pub redis_store-Stores :
    (codec : ResponseCodec) (key : String) (resp : Response)
    → codec.decode (codec.encode resp) ≡ some resp
    → Stores (redis_store codec) key resp
redis_store-Stores codec key resp reads s = ap as_replayed (redis_get-now codec key resp s ∙ reads)

remembered :
    (store : Store) (key : String) (before : Outcome × Site) (resp : Response) (s : Site)
    → Stores store key resp
    → recover (remember_answer store key before) ≡ (answered resp, s)
    → succeeded resp ≡ true
    → as_replayed (store.get key s) ≡ as_replayed (some resp)
unfolding remember_answer
remembered store key (answered first, s') resp s stores h good =
    elim (Bool-cases (succeeded first)) [
      | inl fine ↦
          let sent : (answered first, store.set key first s') ≡ (answered resp, s) = rw fine at h in
          let same : some first ≡ some resp = ap (λ x. reply x.0) sent in
          let first_stored : as_replayed (store.get key (store.set key first s'))
              ≡ as_replayed (some first) =
            subst (λ (o : Option Response). StoresIt store key s' o) (sym same) (stores s') in
          subst (Remembered store key) sent first_stored
      | inr other ↦
          let same : first.code ≡ resp.code = ap (λ x. code_of x.0) (rw other at h) in ground arith
    ]
remembered store key (panicked, s') resp s stores h good =
    let failed : 500 ≡ resp.code = ap (λ x. code_of x.0) h in ground arith
remembered store key (crashed, s') resp s stores h good =
    let failed : 0 ≡ resp.code = ap (λ x. code_of x.0) h in ground arith

once_remembers :
    (store : Store) (key : String) (o : Option Response) (next : Handler) (r : Request)
    (s s' : Site) (resp : Response)
    → store.get key s ≡ o
    → Stores store key resp
    → recover (once store key o next r s) ≡ (answered resp, s')
    → succeeded resp ≡ true
    → as_replayed (store.get key s') ≡ as_replayed (some resp)
unfolding once
once_remembers store key none next r s s' resp e stores h good =
    remembered store key (next r s) resp s' stores h good
once_remembers store key (some old) next r s s' resp e stores h good =
    subst (Remembered store key) h (ap as_replayed e)

once_replays :
    (store : Store) (key : String) (o : Option Response) (next : Handler) (r : Request) (s : Site)
    (resp : Response)
    → as_replayed o ≡ as_replayed (some resp)
    → recover (once store key o next r s) ≡ (replay_answer resp, s)
unfolding once
once_replays store key none next r s resp e = cc
once_replays store key (some old) next r s resp e = ap (λ x. answer_or_crash x s) e

from_store :
    (env : Env) (tokens : Auth) (rl : RateLimiter) (store : Store) (next : Handler) (r : Request)
    (s : Site) (buckets : Buckets) (resp : Response)
    → Keyed r
    → Allowed env rl r s buckets
    → as_replayed (store.get (key_of r) (record s { buckets = buckets })) ≡ as_replayed (some resp)
    → serve env tokens rl store next r s ≡ (replay_answer resp, record s { buckets = buckets })
from_store env tokens rl store next r s buckets resp k allowed stored =
    rw (serve_inward env tokens rl store next r s buckets k allowed) (
      once_replays store (key_of r) (store.get (key_of r) (record s { buckets = buckets }))
        (auth env tokens (timeout next)) _ _ resp stored)

-- Over any store of answers, a write with JSON and a key of at most 255 bytes, for whose path and key
-- the store has an answer, gets that answer, marked as replayed, when the rate limiter lets it through: whatever token it
-- carries, none at all included, and whatever the handler; nothing but the buckets changes.
pub serve_replays :
    (env : Env) (tokens : Auth) (rl : RateLimiter) (store : Store) (next : Handler) (r : Request)
    (s : Site) (buckets : Buckets) (resp : Response)
    → Keyed r
    → Allowed env rl r s buckets
    → store.get (key_of r) (record s { buckets = buckets }) ≡ some resp
    → serve env tokens rl store next r s ≡ (replay_answer resp, record s { buckets = buckets })
serve_replays env tokens rl store next r s buckets resp k allowed stored =
    from_store env tokens rl store next r s buckets resp k allowed (ap as_replayed stored)

-- Over any store of answers, after a write with JSON and a key of at most 255 bytes has been answered
-- with a status of success, a request with the same path and key, also keyed and let through by the
-- rate limiter, gets the same answer again, marked as replayed, and neither its handler nor its token
-- matters; nothing but the buckets changes, so the effects of the first request are not repeated. The
-- store must give back, under that key, the answer when it is put in, and the site may have changed
-- in between, as long as the store still gives under that key what it gave before.
pub serve_retry :
    (env : Env) (tokens : Auth) (rl : RateLimiter) (store : Store) (next next' : Handler)
    (r r' : Request) (s s' s'' : Site) (buckets buckets' : Buckets) (resp : Response)
    → Keyed r
    → Allowed env rl r s buckets
    → serve env tokens rl store next r s ≡ (answered resp, s')
    → succeeded resp ≡ true
    → Keyed r'
    → key_of r' ≡ key_of r
    → Stores store (key_of r) resp
    → store.get (key_of r) (record s'' { buckets = buckets' }) ≡ store.get (key_of r) s'
    → Allowed env rl r' s'' buckets'
    → serve env tokens rl store next' r' s''
      ≡ (replay_answer resp, record s'' { buckets = buckets' })
serve_retry env tokens rl store next next' r r' s s' s'' buckets buckets' resp k allowed first good
      k' same_key stores same_answers allowed' =
    from_store env tokens rl store next' r' s'' buckets' resp k' allowed' (
      rw (same_key, same_answers)
        (once_remembers store (key_of r) _ (auth env tokens (timeout next))
          (record r { idempotency_key = r.idempotency_header }) (record s { buckets = buckets }) s'
          resp refl stores
          (sym (serve_inward env tokens rl store next r s buckets k allowed) ∙ first) good))
