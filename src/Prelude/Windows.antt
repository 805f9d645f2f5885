-- ===== src/Prelude/Windows.antt =====
-- The last entries of a list.
use Prim.Native.Nat.{ℕ, zero, suc, ◌+◌, ◌-◌, ◌≤◌}
use mathlib.Core.Path.{◌≡◌, refl, ap, ◌∙◌, sym}
use mathlib.Core.List.{List, [], ◌∷◌, ◌++◌, map}
use native.Mathlib.Omega.{arith}
use mathlib.Core.Logic.{inl, inr}
use weave_server.Prelude.Tests.{leb, Bool-cases}
use weave_server.Prelude.Lists.{length, take, drop, length-append}

module _ {ℓ} {A : Type ℓ} where
  -- The n entries at the end.
  abbrev pub last_of : ℕ → List A → List A
  last_of n xs = drop (length xs - n) xs

  pub length-drop : (n : ℕ) (xs : List A) → length (drop n xs) ≡ length xs - n
  length-drop zero xs = omega arith
  length-drop (suc n) [] = omega arith
  length-drop (suc n) (x ∷ xs) = omega (arith, length-drop n xs)

  pub length-last_of : (n : ℕ) (xs : List A) → length (last_of n xs) ≤ n
  length-last_of n xs = omega (arith, length-drop (length xs - n) xs)

  drop_nil : (n : ℕ) → drop {A = A} n [] ≡ []
  drop_nil zero = refl
  drop_nil (suc n) = refl

  drop-drop : (m n : ℕ) (xs : List A) → drop m (drop n xs) ≡ drop (n + m) xs
  drop-drop m zero xs = let e : 0 + m ≡ m = omega arith in rw e refl
  drop-drop m (suc n) [] = drop_nil m ∙ sym (drop_nil (suc n + m))
  drop-drop m (suc n) (x ∷ xs) =
      let e : suc n + m ≡ suc (n + m) = omega arith in rw (e, drop-drop m n xs) refl

  pub drop-append : (n : ℕ) (xs ys : List A) → n ≤ length xs → drop n (xs ++ ys) ≡ drop n xs ++ ys
  drop-append zero xs ys h = refl
  drop-append (suc n) [] ys h = absurd (omega arith)
  drop-append (suc n) (x ∷ xs) ys h = drop-append n xs ys (omega arith)

  pub take-append-left : (n : ℕ) (xs ys : List A) → n ≤ length xs → take n (xs ++ ys) ≡ take n xs
  take-append-left zero xs ys h = refl
  take-append-left (suc n) [] ys h = absurd (omega arith)
  take-append-left (suc n) (x ∷ xs) ys h =
      ap (λ zs. x ∷ zs) (take-append-left n xs ys (omega arith))

  pub length-take : (n : ℕ) (xs : List A) → n ≤ length xs → length (take n xs) ≡ n
  length-take zero xs h = refl
  length-take (suc n) [] h = absurd (omega arith)
  length-take (suc n) (x ∷ xs) h = omega (arith, length-take n xs (omega arith))

  last_of-drop : (k n : ℕ) (zs : List A) → k + n ≤ length zs → last_of n (drop k zs) ≡ last_of n zs
  last_of-drop k n zs h =
      drop-drop (length (drop k zs) - n) k zs
      ∙ ap (λ j. drop j zs) (omega (arith, length-drop k zs))

  -- What was cut off before does not matter.
  pub last_of-append :
      (n : ℕ) (xs ys : List A) → last_of n (last_of n xs ++ ys) ≡ last_of n (xs ++ ys)
  last_of-append n xs ys = elim (Bool-cases (leb (length xs) n)) [
    | inl short ↦ let e : length xs - n ≡ 0 = ground arith in rw e refl
    | inr long ↦
        let k = length xs - n in
        ap (last_of n) (sym (drop-append k xs ys (omega arith)))
        ∙ last_of-drop k n (xs ++ ys) (ground (arith, length-append xs ys))
  ]

module _ {ℓ κ} {A : Type ℓ} {B : Type κ} (f : A → B) where
  length-map : (xs : List A) → length (map f xs) ≡ length xs
  length-map [] = refl
  length-map (x ∷ xs) = ap suc (length-map xs)

  map-drop : (n : ℕ) (xs : List A) → map f (drop n xs) ≡ drop n (map f xs)
  map-drop zero xs = refl
  map-drop (suc n) [] = refl
  map-drop (suc n) (x ∷ xs) = map-drop n xs

  pub map-last_of : (n : ℕ) (xs : List A) → map f (last_of n xs) ≡ last_of n (map f xs)
  map-last_of n xs =
      map-drop (length xs - n) xs ∙ ap (λ k. drop (k - n) (map f xs)) (sym (length-map xs))
