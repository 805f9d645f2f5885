-- ===== src/Service/Sourcing/Room.antt =====
-- The loop over the banks in natural numbers: what each account has to give above its cushion, and
-- what one round of the loop takes of it.
use Prim.Native.Nat.{min}
use weave_server.Prelude.{
  ◌∙◌, ℕ, ◌+◌, ◌-◌, ◌^◌, ◌≤◌, ◌<◌, Bool, true, false, not, ◌&&◌, ◌||◌, List, [], ◌∷◌, ◌≡◌, refl,
  ◌==◌, leb, if◌then◌else◌, arith,
}
use weave_server.Prelude.Int.{leb_ℤ, pos, negsuc, pos_part, ◌-ℤ◌}
use weave_server.Prelude.Word.{IsInt64}
use weave_server.Model.{Amount, sub, sub_exact, BankAccount}
use weave_server.Provider.{Env}
use weave_server.Service.Sourcing.{Balances, balance_of, Sourced, draw, from_banks, at_most}

-- The balance above the cushion of an active and verified account, 0 for any other.
unfoldable pub room : Balances → BankAccount → ℕ
room live a =
    if a.is_active && a.is_verified then pos_part (balance_of a.id live -ℤ a.min_balance) else 0

unfoldable pub capacity : Balances → List BankAccount → ℕ
capacity live [] = 0
capacity live (a ∷ as') = room live a + capacity live as'

-- The subtraction that the code makes for this account does not overflow.
abbrev pub Fits : Balances → BankAccount → Type 0
Fits live a = IsInt64 (balance_of a.id live -ℤ a.min_balance)

pub at_most-pos : (r n : ℕ) → at_most (pos r) (pos n) ≡ pos (min r n)
at_most-pos r n = ground arith

-- The tests of one round, over any way to go on.
core :
    (active verified : Bool) (av : Amount) (r : ℕ) (skipped : Sourced) (f g : Amount → Sourced)
    → ((t : ℕ) → t ≤ r → (f (pos t)).remaining ≡ pos (r - t))
    → let v = if active && verified then pos_part av else 0 in
      (if not active || not verified
        then skipped
        else if leb_ℤ av (pos 0)
        then skipped
        else if leb_ℤ (f (at_most (pos r) av)).remaining (pos 0)
        then f (at_most (pos r) av)
        else g (at_most (pos r) av))
      ≡ (if v == 0 then skipped else if leb r v then f (pos (min r v)) else g (pos (min r v)))
core false verified av r skipped f g h = refl
core true false av r skipped f g h = refl
core true true (negsuc n) r skipped f g h = ground arith
core true true (pos n) r skipped f g h =
    rw (at_most-pos r n, h (min r n) (omega arith)) (ground arith)

tests :
    (active verified : Bool) (av ex rm : Amount) (r : ℕ) (skipped : Sourced)
    (f g : Amount → Sourced)
    → av ≡ ex
    → rm ≡ pos r
    → ((t : ℕ) → t ≤ r → (f (pos t)).remaining ≡ pos (r - t))
    → let v = if active && verified then pos_part ex else 0 in
      (if not active || not verified
        then skipped
        else if leb_ℤ av (pos 0)
        then skipped
        else if leb_ℤ (f (at_most rm av)).remaining (pos 0)
        then f (at_most rm av)
        else g (at_most rm av))
      ≡ (if v == 0 then skipped else if leb r v then f (pos (min r v)) else g (pos (min r v)))
tests active verified av ex rm r skipped f g same e h =
    rw (same, e) (core active verified ex r skipped f g h)

pub sub-pos : (r t : ℕ) → r < 2 ^ 63 → t ≤ r → sub (pos r) (pos t) ≡ pos (r - t)
unfolding ◌-ℤ◌
sub-pos r t small le = sub_exact (pos r) (pos t) (ground arith) ∙ ground arith

-- What is left after a draw.
pub draw-remaining :
    (env : Env) (a : BankAccount) (s : Sourced) (r t : ℕ)
    → s.remaining ≡ pos r
    → r < 2 ^ 63
    → t ≤ r
    → (draw env a (pos t) s).remaining ≡ pos (r - t)
draw-remaining env a s r t e small le = rw e (sub-pos r t small le)

-- One round of the loop.
pub from_banks-cons :
    (env : Env) (live : Balances) (a : BankAccount) (rest : List BankAccount) (s : Sourced) (r : ℕ)
    → s.remaining ≡ pos r
    → r < 2 ^ 63
    → Fits live a
    → let drawn = draw env a (pos (min r (room live a))) s in
      from_banks env live (a ∷ rest) s ≡ (
        if room live a == 0
        then from_banks env live rest s
        else if leb r (room live a)
        then drawn
        else from_banks env live rest drawn)
unfolding from_banks room
from_banks-cons env live a rest s r e small fits =
    tests a.is_active a.is_verified (sub (balance_of a.id live) a.min_balance)
      (balance_of a.id live -ℤ a.min_balance) s.remaining r (from_banks env live rest s)
      (λ t. draw env a t s) (λ t. from_banks env live rest (draw env a t s))
      (sub_exact (balance_of a.id live) a.min_balance fits) e
      (λ t le. draw-remaining env a s r t e small le)
