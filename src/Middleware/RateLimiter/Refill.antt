-- ===== src/Middleware/RateLimiter/Refill.antt =====
-- When the buckets of `RateLimiter` are filled again.
use Prim.Native.Nat.{min}
use native.Mathlib.Nat.{div-eq_of_lt}
use weave_server.Prelude.{
  ◌≡◌, refl, ◌∙◌, ap, ℕ, ◌+◌, ◌-◌, ◌/◌, ◌≤◌, ◌<◌, ◌^◌, ◌==◌, not, String, true, false, none, some,
  List, [], ◌∷◌, str_eq, arith, eq_iff, Bool-cases, inl, inr, length, if◌then◌else◌,
}
use weave_server.Prelude.Int.{pos, ◌+ℤ◌, ◌-ℤ◌, ◌*ℤ◌}
use weave_server.Prelude.Word.{wrap}
use weave_server.Middleware.RateLimiter.{
  Bucket, Buckets, RateLimiter, lookup, store, refilled, take_token, allow,
}

lookup-store : (key : String) (b : Bucket) (bs : Buckets) → lookup key (store key b bs) ≡ some b
unfolding lookup store
lookup-store key b [] = rw ((eq_iff key key).1 refl) refl
lookup-store key b ((k, old) ∷ bs) = elim (Bool-cases (str_eq k key)) [
  | inl same ↦ rw (same, same) refl
  | inr other ↦ rw (other, other) (lookup-store key b bs)
]

store_others :
    (key other : String) (b : Bucket) (bs : Buckets)
    → str_eq key other ≡ false
    → lookup other (store key b bs) ≡ lookup other bs
unfolding lookup store
store_others key other b [] differ = rw differ refl
store_others key other b ((k, old) ∷ bs) differ = elim (Bool-cases (str_eq k key)) [
  | inl same ↦
      let k_differs : str_eq k other ≡ false =
        ap (λ (x : String). str_eq x other) ((eq_iff k key).0 same) ∙ differ in
      rw (same, k_differs) refl
  | inr unlike ↦ rw (unlike, store_others key other b bs differ) refl
]

-- Which of the requests with the key, at the given times, are let through: how many.
unfoldable pub served : RateLimiter → String → List ℕ → Buckets → ℕ
served rl key [] bs = 0
served rl key (t ∷ ts) bs =
    let (allowed, bs') = allow rl t key bs in (if allowed then 1 else 0) + served rl key ts bs'

-- Each request comes less than a window after the one before.
abbrev pub Steady : ℕ → ℕ → List ℕ → Type 0
Steady window last [] = Unit {0}
Steady window last (t ∷ ts) = (t < last + window) × Steady window t ts

refilled-early :
    (rl : RateLimiter) (r k last t : ℕ)
    → rl.rate ≡ pos r
    → r < 2 ^ 63
    → k ≤ r
    → 0 < rl.window
    → t < last + rl.window
    → refilled rl t (record { tokens = pos k; last = last }) ≡ pos k
unfolding refilled wrap ◌*ℤ◌ ◌+ℤ◌
refilled-early rl r k last t rate small le positive early =
    let none_passed : (t - last) / rl.window ≡ 0 = div-eq_of_lt (omega arith) in
    rw (rate, none_passed) (ground arith)

take_token-early :
    (rl : RateLimiter) (r k last t : ℕ)
    → rl.rate ≡ pos r
    → r < 2 ^ 63
    → k ≤ r
    → 0 < rl.window
    → t < last + rl.window
    → take_token rl t (some (record { tokens = pos k; last = last }))
      ≡ (not (k == 0), record { tokens = pos (k - 1); last = t })
unfolding take_token wrap ◌-ℤ◌
take_token-early rl r k last t rate small le positive early =
    rw (refilled-early rl r k last t rate small le positive early) (ground arith)

-- The first request with a key.
take_token-first :
    (rl : RateLimiter) (r t : ℕ)
    → rl.rate ≡ pos r
    → 0 < r
    → r < 2 ^ 63
    → take_token rl t none ≡ (true, record { tokens = pos (r - 1); last = t })
unfolding take_token wrap ◌-ℤ◌
take_token-first rl r t rate some_rate small = rw rate (ground arith)

served-drained :
    (rl : RateLimiter) (key : String) (r : ℕ)
    → rl.rate ≡ pos r
    → r < 2 ^ 63
    → 0 < rl.window
    → (ts : List ℕ) (k last : ℕ) (bs : Buckets) → k ≤ r
    → lookup key bs ≡ some (record { tokens = pos k; last = last })
    → Steady rl.window last ts
    → served rl key ts bs ≡ min k (length ts)
unfolding served allow
served-drained rl key r rate small positive [] k last bs le found steady = omega arith
served-drained rl key r rate small positive (t ∷ ts) k last bs le found steady =
    let b : Bucket = record { tokens = pos (k - 1); last = t } in
    let rest =
      served-drained rl key r rate small positive ts (k - 1) t (store key b bs) (omega arith)
        (lookup-store key b bs) steady.1 in
    rw (found, take_token-early rl r k last t rate small le positive steady.0)
      (rw rest (ground arith))

-- Where the rate `r` and the window are positive, a client with a new key who sends each request
-- less than a window after the one before is let through `r` times in all, however long it goes
-- on: the bucket is never filled again.
pub served-Steady :
    (rl : RateLimiter) (key : String) (r t : ℕ) (ts : List ℕ) (bs : Buckets)
    → rl.rate ≡ pos r
    → 0 < r
    → r < 2 ^ 63
    → 0 < rl.window
    → lookup key bs ≡ none
    → Steady rl.window t ts
    → served rl key (t ∷ ts) bs ≡ min r (length (t ∷ ts))
unfolding served allow
served-Steady rl key r t ts bs rate some_rate small positive new steady =
    let b : Bucket = record { tokens = pos (r - 1); last = t } in
    let rest =
      served-drained rl key r rate small positive ts (r - 1) t (store key b bs) (omega arith)
        (lookup-store key b bs) steady in
    rw (new, take_token-first rl r t rate some_rate small) (rw rest (ground arith))

-- A request with one key leaves the buckets of all other keys as they are.
pub allow_others :
    (rl : RateLimiter) (now : ℕ) (key other : String) (bs : Buckets)
    → str_eq key other ≡ false
    → lookup other (allow rl now key bs).1 ≡ lookup other bs
unfolding allow
allow_others rl now key other bs differ = store_others key other _ bs differ
