-- ===== src/Service/Sourcing/Loop.antt =====
-- The loop over the banks against a greedy reference: each account gives what it has above its
-- cushion, in turn, until the amount is covered.
use Prim.Native.Nat.{min}
use weave_server.Prelude.{
  ℕ, ◌+◌, ◌-◌, ◌*◌, ◌^◌, ◌≤◌, ◌<◌, List, [], ◌∷◌, ◌++◌, ◌≡◌, refl, sym, ◌∙◌, All, length, ◌==◌, leb,
  leb→le, if◌then◌else◌, arith, Bool-cases, inl, inr, append-nil, append_assoc, false,
}
use weave_server.Prelude.Int.{pos, ◌+ℤ◌}
use weave_server.Model.{BankAccount, DebitLeg, add_exact}
use weave_server.Provider.{Env}
use weave_server.Service.Sourcing.{Balances, Sourced, draw, from_banks, nip_fee}
use weave_server.Service.Sourcing.Room.{room, capacity, Fits, from_banks-cons, draw-remaining}

abbrev pub bank_leg : Env → BankAccount → ℕ → DebitLeg
bank_leg env a t = record {
  source = env.uuid_string a.id;
  amount = pos t;
  fee = nip_fee;
  bank_name = a.bank_name;
}

-- The legs that cover `r` greedily.
unfoldable pub greedy : Env → Balances → ℕ → List BankAccount → List DebitLeg
greedy env live r [] = []
greedy env live r (a ∷ as') =
    let t = min r (room live a) in
    let legs = greedy env live (r - t) as' in if t == 0 then legs else bank_leg env a t ∷ legs

pub greedy-zero :
    (env : Env) (live : Balances) (as' : List BankAccount) → greedy env live 0 as' ≡ []
unfolding greedy
greedy-zero env live [] = refl
greedy-zero env live (a ∷ as') = ground (arith, greedy-zero env live as')

-- The fees of the legs drawn so far, and those of the legs to come.
abbrev pub bank_fees : List DebitLeg → ℕ
bank_fees legs = 3500 * length legs

abbrev pub IsGreedy : Env → Balances → (r f : ℕ) → List BankAccount → Sourced → Sourced → Type 0
IsGreedy env live r f as' s t =
    (t.plan.legs ≡ s.plan.legs ++ greedy env live r as')
    × (t.remaining ≡ pos (r - capacity live as'))
    × (t.plan.fees ≡ pos (f + bank_fees (greedy env live r as')))

module _ (env : Env) (live : Balances) (a : BankAccount) (rest : List BankAccount) where
  greedy-skip : (r : ℕ) → room live a ≡ 0 → greedy env live r (a ∷ rest) ≡ greedy env live r rest
  unfolding greedy
  greedy-skip r e =
      let none_taken : min r (room live a) ≡ 0 = omega arith in
      let all_left : r - 0 ≡ r = omega arith in rw none_taken (rw all_left refl)

  greedy-last :
      (r : ℕ) → 0 < r → r ≤ room live a → greedy env live r (a ∷ rest) ≡ bank_leg env a r ∷ []
  unfolding greedy
  greedy-last r p h =
      let all_taken : min r (room live a) ≡ r = omega arith in
      let nothing_left : r - r ≡ 0 = omega arith in
      let more : (r == 0) ≡ false = ground arith in
      rw all_taken (rw (more, nothing_left, greedy-zero env live rest))

  greedy-more :
      (r : ℕ)
      → 0 < room live a
      → room live a < r
      → greedy env live r (a ∷ rest)
        ≡ bank_leg env a (room live a) ∷ greedy env live (r - room live a) rest
  unfolding greedy
  greedy-more r p h =
      let all_taken : min r (room live a) ≡ room live a = omega arith in
      let more : (room live a == 0) ≡ false = ground arith in rw all_taken (rw more)

  draw-fees :
      (s : Sourced) (f t : ℕ)
      → s.plan.fees ≡ pos f
      → f + 3500 < 2 ^ 63
      → (draw env a (pos t) s).plan.fees ≡ pos (f + 3500)
  unfolding ◌+ℤ◌
  draw-fees s f t e h = rw e (add_exact (pos f) nip_fee (ground arith) ∙ ground arith)

  -- One account, given what holds for those after it.
  cons-IsGreedy :
      (s : Sourced) (r f : ℕ)
      → s.remaining ≡ pos r
      → 0 < r
      → r < 2 ^ 63
      → s.plan.fees ≡ pos f
      → f + 3500 < 2 ^ 63
      → Fits live a
      → IsGreedy env live r f rest s (from_banks env live rest s)
      → (room live a < r
          → let drawn = draw env a (pos (room live a)) s in
            IsGreedy env live
              (r - room live a)
              (f + 3500)
              rest
              drawn
              (from_banks env live rest drawn))
      → IsGreedy env live r f (a ∷ rest) s (from_banks env live (a ∷ rest) s)
  unfolding capacity
  cons-IsGreedy s r f e pos_r small ef fees fits skipped drawn_on =
      rw (from_banks-cons env live a rest s r e small fits) (elim (Bool-cases (room live a == 0)) [
        | inl empty ↦ rw empty (rw (greedy-skip r (ground arith)) (ground (arith, skipped)))
        | inr some_room ↦ rw some_room (elim (Bool-cases (leb r (room live a))) [
          | inl last ↦ rw last (last_leg (leb→le r (room live a) last))
          | inr more ↦ rw more (first_leg (ground arith) (ground arith))
        ])
      ])
    where
      last_leg :
          r ≤ room live a
          → IsGreedy env live r f (a ∷ rest) s (draw env a (pos (min r (room live a))) s)
      last_leg le =
          let all_taken : min r (room live a) ≡ r = omega arith in
          rw all_taken (
            rw (greedy-last r pos_r le) (
              refl,
              draw-remaining env a s r r e small (omega arith) ∙ ground arith,
              draw-fees s f r ef fees ∙ ground arith,
            ))

      first_leg :
          0 < room live a
          → room live a < r
          → let drawn = draw env a (pos (min r (room live a))) s in
            IsGreedy env live r f (a ∷ rest) s (from_banks env live rest drawn)
      first_leg p lt =
          let all_taken : min r (room live a) ≡ room live a = omega arith in
          let (legs, left, paid) = drawn_on lt in
          rw all_taken (
            rw (greedy-more r p lt)
              (legs ∙ append_assoc s.plan.legs _ _, left ∙ ground arith, paid ∙ ground arith))

-- The loop is the greedy reference: its legs are appended, what is left is the amount less all
-- that the accounts have, and each leg costs one fee.
pub from_banks-IsGreedy :
    (env : Env) (live : Balances) (as' : List BankAccount) (s : Sourced) (r f : ℕ)
    → s.remaining ≡ pos r
    → 0 < r
    → r < 2 ^ 63
    → s.plan.fees ≡ pos f
    → f + 3500 * length as' < 2 ^ 63
    → All (Fits live) as'
    → IsGreedy env live r f as' s (from_banks env live as' s)
unfolding greedy capacity from_banks
from_banks-IsGreedy env live [] s r f e pos_r small ef fees fits =
    (sym (append-nil s.plan.legs), ground arith, ef ∙ ground arith)
from_banks-IsGreedy env live (a ∷ rest) s r f e pos_r small ef fees fits =
    cons-IsGreedy env live a rest s r f e pos_r small ef (omega arith) fits.0
      (from_banks-IsGreedy env live rest s r f e pos_r small ef (omega arith) fits.1)
      (λ lt.
        from_banks-IsGreedy env live rest (draw env a (pos (room live a)) s) (r - room live a)
          (f + 3500) (draw-remaining env a s r (room live a) e small (omega arith)) (omega arith)
          (omega arith) (draw-fees env live a rest s f (room live a) ef (omega arith)) (omega arith)
          fits.1)
