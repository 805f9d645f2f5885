-- ===== src/Middleware/RateLimiter.antt =====
-- internal/middleware/auth.go: the token bucket of `RateLimiter`. Times are nanoseconds of the
-- monotonic clock, and the window is not zero.
pub mod Refill
use weave_server.Prelude.{
  ◌≡◌, refl, ℕ, ◌+◌, ◌-◌, ◌/◌, ◌≤◌, ◌<◌, ◌^◌, String, Bool, true, false, Option, none, some, List,
  [], ◌∷◌, str_eq, arith, if◌then◌else◌,
}
use weave_server.Prelude.Int.{ℤ, pos, ◌+ℤ◌, ◌-ℤ◌, ◌*ℤ◌, ltb_ℤ, leb_ℤ}
use weave_server.Prelude.Word.{wrap}

pub record Bucket : Type 0 where
  pub tokens : ℤ
  pub last : ℕ

-- `map[string]*bucket`
abbrev pub Buckets : Type 0
Buckets = List (String × Bucket)

pub record RateLimiter : Type 0 where
  pub rate : ℤ
  pub window : ℕ

unfoldable pub lookup : String → Buckets → Option Bucket
lookup key [] = none
lookup key ((k, b) ∷ bs) = if str_eq k key then some b else lookup key bs

-- A key that is there keeps its place.
unfoldable pub store : String → Bucket → Buckets → Buckets
store key b [] = (key, b) ∷ []
store key b ((k, old) ∷ bs) =
    let rest = store key b bs in if str_eq k key then (k, b) ∷ bs else (k, old) ∷ rest

-- The tokens of a bucket at the time `now`.
unfoldable pub refilled : RateLimiter → ℕ → Bucket → ℤ
refilled rl now b =
    let tokens = wrap (b.tokens +ℤ wrap (pos ((now - b.last) / rl.window) *ℤ rl.rate)) in
    if ltb_ℤ rl.rate tokens then rl.rate else tokens

-- `Allow` on the bucket of a key.
unfoldable pub take_token : RateLimiter → ℕ → Option Bucket → Bool × Bucket
take_token rl now none = (true, record { tokens = wrap (rl.rate -ℤ pos 1); last = now })
take_token rl now (some b) =
    let tokens = refilled rl now b in
    if leb_ℤ tokens (pos 0)
    then (false, record { tokens = tokens; last = now })
    else (true, record { tokens = wrap (tokens -ℤ pos 1); last = now })

-- `Allow`
unfoldable pub allow : RateLimiter → ℕ → String → Buckets → Bool × Buckets
allow rl now key buckets =
    let (allowed, b) = take_token rl now (lookup key buckets) in (allowed, store key b buckets)
