-- ===== src/Middleware/Stack/Expired.antt =====
-- How long an answer is replayed where the store of answers is Redis: pkg/idempotency/store.go behind
-- the whole stack.
use weave_server.Prelude.{
  ◌≡◌, refl, ◌∙◌, ap, ◌+◌, ℕ, true, none, some, ltb, Bool-cases, inl, inr, if◌then◌else◌, String,
}
use weave_server.Http.{Request, Site, Handler, Response, answered}
use weave_server.Provider.{Env}
use weave_server.Service.AuthService.{Auth}
use weave_server.Middleware.RateLimiter.{RateLimiter, Buckets}
use weave_server.Middleware.Idempotency.{
  ResponseCodec, redis_get, redis_set, redis_store, once, remember_answer, replay_answer,
}
use weave_server.Middleware.Idempotency.Expiry.{later, redis_get-redis_set}
use weave_server.Middleware.Stack.{serve}
use weave_server.Middleware.Stack.Replay.{Keyed, Allowed, key_of, succeeded, serve_inward}
use weave_server.Middleware.Stack.Late.{LetIn, serve_first}

-- The site when an answer has been kept in Redis and that many seconds have passed.
abbrev pub kept_for : ResponseCodec → String → Response → ℕ → Site → Site
kept_for codec key resp time s = record (later time (redis_set codec key resp s)) {
  clock = s.clock + time;
}

-- The answer is found for a day.
found :
    (codec : ResponseCodec) (key key' : String) (resp : Response) (time : ℕ) (s : Site)
    (buckets : Buckets)
    → key' ≡ key
    → codec.decode (codec.encode resp) ≡ some resp
    → redis_get codec key' (record (kept_for codec key resp time s) { buckets = buckets })
      ≡ (if ltb time 86400 then some resp else none)
unfolding redis_get redis_set
found codec key key' resp time s buckets same_key readable = rw same_key (
    redis_get-redis_set codec key resp time s
    ∙ ap (λ o. if ltb time 86400 then o else none) readable)

-- Over the store in Redis, where the answer can be read back from its JSON: a write with JSON, a new
-- key and a token that is right, whose handler answers with success, gets its answer; and the same
-- request again, that many seconds later and let through by the rate limiter, with a token that is
-- right, is answered with a replay if they are less than 24 hours, and runs its handler again if they
-- are 24 hours or more.
pub serve_expired :
    (env : Env) (tokens : Auth) (rl : RateLimiter) (codec : ResponseCodec) (next next' : Handler)
    (r r' inner inner' : Request) (s s' t' : Site) (buckets buckets' : Buckets)
    (resp resp' : Response) (time : ℕ)
    → codec.decode (codec.encode resp) ≡ some resp
    → succeeded resp ≡ true
    → Keyed r
    → Allowed env rl r s buckets
    → redis_get codec (key_of r) (record s { buckets = buckets }) ≡ none
    → LetIn env tokens r (record s { buckets = buckets }) inner
    → next inner (record s { buckets = buckets }) ≡ (answered resp, s')
    → Keyed r'
    → key_of r' ≡ key_of r
    → Allowed env rl r' (kept_for codec (key_of r) resp time s') buckets'
    → LetIn env tokens r'
        (record (kept_for codec (key_of r) resp time s') { buckets = buckets' })
        inner'
    → next' inner' (record (kept_for codec (key_of r) resp time s') { buckets = buckets' })
      ≡ (answered resp', t')
    → let store = redis_store codec in
      let t = kept_for codec (key_of r) resp time s' in
      (serve env tokens rl store next r s ≡ (answered resp, redis_set codec (key_of r) resp s'))
      × (serve env tokens rl store next' r' t ≡ (
          if ltb time 86400
          then (replay_answer resp, record t { buckets = buckets' })
          else remember_answer store (key_of r') (answered resp', t')))
unfolding once remember_answer
serve_expired env tokens rl codec next next' r r' inner inner' s s' t' buckets buckets' resp resp'
      time readable good k allowed new inside runs k' same_key allowed' inside' runs' =
    let store = redis_store codec in
    let t = kept_for codec (key_of r) resp time s' in
    let got = found codec (key_of r) (key_of r') resp time s' buckets' same_key readable in
    (
      serve_first env tokens rl store next r inner s s' buckets resp k allowed new inside runs
          ∙ rw good refl,
      elim (Bool-cases (ltb time 86400)) [
        | inl soon ↦
            serve_inward env tokens rl store next' r' t buckets' k' allowed' ∙ rw (got, soon) refl
        | inr late ↦ rw late (
            serve_first env tokens rl store next' r' inner' t t' buckets' resp' k' allowed'
              (got ∙ rw late refl) inside' runs')
      ],
    )
