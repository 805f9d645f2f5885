-- ===== src/Middleware/Idempotency/Expiry.antt =====
-- How long pkg/idempotency/store.go keeps an answer in Redis.
use weave_server.Prelude.{
  ap, sym, ◌∙◌, ◌≡◌, refl, ◌+◌, ℕ, String, Bool-cases, inl, inr, none, ltb, if◌then◌else◌, arith,
}
use weave_server.Db.Redis.{cache_set-get, cache_set-expired}
use weave_server.Http.{Response, Site}
use weave_server.Middleware.Idempotency.{ResponseCodec, redis_get, redis_set, make_key}

-- The site when that many seconds have passed for Redis.
abbrev pub later : ℕ → Site → Site
later time s = record s { world = record s.world { now = s.world.now + time } }

-- An answer put into Redis under a key is what is read back, as json reads it, at any time in the
-- next 24 hours; from then on nothing is found under the key.
pub redis_get-redis_set :
    (codec : ResponseCodec) (key : String) (resp : Response) (time : ℕ) (s : Site)
    → redis_get codec key (later time (redis_set codec key resp s))
      ≡ (if ltb time 86400 then codec.decode (codec.encode resp) else none)
unfolding redis_get redis_set
redis_get-redis_set codec key resp time s = elim (Bool-cases (ltb time 86400)) [
  | inl soon ↦
      rw (soon, cache_set-get (make_key key) (codec.encode resp) 86400 time s.world (ground arith))
        refl
  | inr late ↦
      rw (late, cache_set-expired (make_key key) (codec.encode resp) 86400 time s.world late) refl
]

abbrev set_now : Site → ℕ → Site
set_now s t = record s { world = record s.world { now = t } }

later_none : (s : Site) → later 0 s ≡ s
later_none s = ap (set_now s) (omega arith)

pub redis_get-now :
    (codec : ResponseCodec) (key : String) (resp : Response) (s : Site)
    → redis_get codec key (redis_set codec key resp s) ≡ codec.decode (codec.encode resp)
redis_get-now codec key resp s =
    ap (redis_get codec key) (sym (later_none (redis_set codec key resp s)))
    ∙ redis_get-redis_set codec key resp 0 s
