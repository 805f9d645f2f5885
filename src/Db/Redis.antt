-- ===== src/Db/Redis.antt =====
-- What the handlers use of Redis, which can always be reached. A key goes when its time is over.
use weave_server.Prelude.{
  List, ◌≡◌, refl, ◌<◌, true, [], Bool-cases, inl, inr, false, eq_iff, arith, ℕ, ◌+◌, String, not,
  ◌&&◌, Option, none, some, ◌∷◌, find, select, str_eq, ltb,
}
use weave_server.Db.Schema.{World, CacheEntry, ok}
use weave_server.Db.Statement.{M}

abbrev pub text_of : Option CacheEntry → Option String
text_of none = none
text_of (some e) = some e.text

-- GET: none for a key that is not there, which is `redis.Nil`.
unfoldable pub cache_get : String → M (Option String)
cache_get key w = (ok (text_of (find (λ e. str_eq e.key key && ltb w.now e.expires) w.cache)), w)

-- SET with a time to live, in the unit of the clock.
unfoldable pub cache_set : (key text : String) → (ttl : ℕ) → M (Unit {0})
cache_set key text ttl w = (
  ok tt,
  record w {
    cache =
        record { key = key; text = text; expires = w.now + ttl }
        ∷ select (λ e. not (str_eq e.key key)) w.cache;
  },
)

-- DEL
unfoldable pub cache_del : String → M (Unit {0})
cache_del key w = (ok tt, record w { cache = select (λ e. not (str_eq e.key key)) w.cache })

abbrev pub after : ℕ → World → World
after time w = record w { now = w.now + time }

pub cache_set-get :
    (key text : String) (ttl time : ℕ) (w : World)
    → time < ttl
    → cache_get key (after time (cache_set key text ttl w).1)
      ≡ (ok (some text), after time (cache_set key text ttl w).1)
unfolding cache_get cache_set
cache_set-get key text ttl time w soon =
    let fresh : ltb (w.now + time) (w.now + ttl) ≡ true = ground arith in
    rw ((eq_iff key key).1 refl, fresh) refl

find-select-none :
    (key : String) (now : ℕ) (xs : List CacheEntry)
    → find (λ e. str_eq e.key key && ltb now e.expires) (select (λ e. not (str_eq e.key key)) xs)
      ≡ none
find-select-none key now [] = refl
find-select-none key now (x ∷ xs) = elim (Bool-cases (str_eq x.key key)) [
  | inl same ↦ rw same (find-select-none key now xs)
  | inr other ↦ rw (other, other) (find-select-none key now xs)
]

pub cache_set-expired :
    (key text : String) (ttl time : ℕ) (w : World)
    → ltb time ttl ≡ false
    → cache_get key (after time (cache_set key text ttl w).1)
      ≡ (ok none, after time (cache_set key text ttl w).1)
unfolding cache_get cache_set
cache_set-expired key text ttl time w late =
    let gone : ltb (w.now + time) (w.now + ttl) ≡ false = ground arith in
    rw ((eq_iff key key).1 refl, gone, find-select-none key (w.now + time) w.cache) refl

pub cache_del-get :
    (key : String) (w : World) → cache_get key (cache_del key w).1 ≡ (ok none, (cache_del key w).1)
unfolding cache_get cache_del
cache_del-get key w = rw (find-select-none key w.now w.cache) refl
