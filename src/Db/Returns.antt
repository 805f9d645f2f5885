-- ===== src/Db/Returns.antt =====
-- An action that returns a value in every world, also where statements fail.
use weave_server.Prelude.{
  ◌≡◌, refl, String, ℕ, Bool, true, false, Option, none, some, if◌then◌else◌,
}
use weave_server.Db.Schema.{Result, ok, err, Error, World}
use weave_server.Db.Statement.{
  M, pure, gets, attempt, ignore, on_option, on_result, continue, ◌>>=◌,
}
use weave_server.Db.Redis.{cache_get, cache_set, cache_del}

abbrev pub is_ok : {A : Type 0} → Result A → Bool
is_ok (ok a) = true
is_ok (err e) = false

pub record Returns {A : Type 0} (m : M A) : Type 0 where
  pub at : (w : World) → is_ok (m w).0 ≡ true

module _ {A : Type 0} where
  pub Returns-pure : (a : A) → Returns (pure a)
  unfolding ◌>>=◌
  Returns-pure a = record { at = λ w. refl }

  pub Returns-gets : (f : World → A) → Returns (gets f)
  unfolding ◌>>=◌
  Returns-gets f = record { at = λ w. refl }

  pub Returns-attempt : (m : M A) → Returns (attempt m)
  unfolding ◌>>=◌
  Returns-attempt m = record { at = λ w. refl }

  pub Returns-ignore : (m : M A) → Returns (ignore m)
  unfolding ◌>>=◌
  Returns-ignore m = record { at = λ w. refl }

  pub Returns-if : (b : Bool) (m n : M A) → Returns m → Returns n → Returns (if b then m else n)
  Returns-if true m n h k = h
  Returns-if false m n h k = k

module _ {A B : Type 0} where
  pub Returns-on_option :
      (o : Option A) (m : M B) (f : A → M B)
      → Returns m
      → ((a : A) → Returns (f a))
      → Returns (on_option o m f)
  unfolding ◌>>=◌
  Returns-on_option none m f h k = record { at = h.at }
  Returns-on_option (some a) m f h k = record { at = (k a).at }

  pub Returns-on_result :
      (r : Result A) (g : Error → M B) (f : A → M B)
      → ((e : Error) → Returns (g e))
      → ((a : A) → Returns (f a))
      → Returns (on_result r g f)
  unfolding ◌>>=◌
  Returns-on_result (ok a) g f h k = record { at = (k a).at }
  Returns-on_result (err e) g f h k = record { at = (h e).at }

  goes_on :
      (r : Result A) (f : A → M B) (w : World)
      → is_ok r ≡ true
      → ((a : A) → Returns (f a))
      → is_ok (continue r f w).0 ≡ true
  goes_on (ok a) f w h k = (k a).at w
  goes_on (err e) f w h k = cc

  pub Returns-bind :
      (m : M A) (f : A → M B) → Returns m → ((a : A) → Returns (f a)) → Returns (m >>= f)
  unfolding ◌>>=◌
  Returns-bind m f h k = record { at = λ w. let (r, v) = m w in goes_on r f v (h.at w) k }

pub Returns-cache_get : (key : String) → Returns (cache_get key)
unfolding cache_get
Returns-cache_get key = record { at = λ w. refl }

pub Returns-cache_set : (key text : String) (ttl : ℕ) → Returns (cache_set key text ttl)
unfolding cache_set
Returns-cache_set key text ttl = record { at = λ w. refl }

pub Returns-cache_del : (key : String) → Returns (cache_del key)
unfolding cache_del
Returns-cache_del key = record { at = λ w. refl }

pub ruleset returns_rules = (
  Returns-pure, Returns-gets, Returns-attempt, Returns-ignore, Returns-if, Returns-on_option,
  Returns-on_result, Returns-bind, Returns-cache_get, Returns-cache_set, Returns-cache_del,
)
