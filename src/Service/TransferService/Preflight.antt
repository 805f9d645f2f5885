-- ===== src/Service/TransferService/Preflight.antt =====
-- `InitiateTransfer` before it begins its transaction: a request that was made before, and one that
-- cannot be covered.
use weave_server.Prelude.{
  leb, ◌^◌, ◌<◌, true, All, ℕ, ◌⊎◌, ◌++◌, ◌∷◌, [], ◌≡◌, refl, String, false, Option, none, some,
  find, str_eq, arith, Bool-cases, inl, inr,
}
use weave_server.Model.{Uuid, AuditLog, Transaction}
use weave_server.Db.{insufficient_funds, err, Error, statement, Tables, World, ok, ◌>>=◌}
use weave_server.Db.Fine.{Fine, query-Fine}
use weave_server.Db.Statement.{unreachable}
use weave_server.Provider.{Env}
use weave_server.Service.Sourcing.Build.{IsSound, spendable, build_debit_plan-greedy}
use weave_server.Service.Sourcing.{build_debit_plan}
use weave_server.Repository.TransactionRepo.{get_by_idempotency_key}
use weave_server.Repository.AuditLogRepo
use weave_server.Service.TransferService.{
  pos, start_transfer, TransferRequest, initiate_transfer, replay,
}

-- The transfer that has the key, if there is one.
abbrev pub made_before : String → Tables → Option Transaction
made_before key t = find (λ r. str_eq r.idempotency_key key) t.transactions

pub initiate_transfer-replay :
    (env : Env) (user : Uuid) (req : TransferRequest) (txn : Transaction) (w : World)
    → Fine w
    → str_eq req.idempotency_key "" ≡ false
    → made_before req.idempotency_key w.tables ≡ some txn
    → initiate_transfer env user req w ≡ (ok (replay txn), w)
unfolding initiate_transfer get_by_idempotency_key ◌>>=◌
initiate_transfer-replay env user req txn w fine key found =
    rw (key, query-Fine (made_before req.idempotency_key) w fine) (rw found refl)

-- The tables but for `audit_logs` are the same, and so are the rest of the connection's state and
-- what the providers have accepted.
abbrev pub OnlyAudited : World → World → Type 0
OnlyAudited w v =
    (record v.tables { audit_logs = w.tables.audit_logs } ≡ w.tables)
    × (v.effects ≡ w.effects)
    × (v.called ≡ w.called)

insert-cases :
    (entry : AuditLog) (t : Tables)
    → (AuditLogRepo.insert entry t ≡ none)
      ⊎ (AuditLogRepo.insert entry t
          ≡ some (tt, record t { audit_logs = t.audit_logs ++ entry ∷ [] }))
unfolding AuditLogRepo.insert
insert-cases entry t = ground arith

audit-OnlyAudited :
    (user : Option Uuid) (action status : String) (w : World)
    → OnlyAudited w (AuditLogRepo.write user action status w).1
unfolding AuditLogRepo.write statement ◌>>=◌
audit-OnlyAudited user action status w = elim (Bool-cases w.aborted) [
  | inl spoilt ↦ rw spoilt (refl, refl, refl)
  | inr sound ↦ rw sound (elim (Bool-cases (unreachable w.faults)) [
    | inl lost ↦ rw lost (refl, refl, refl)
    | inr sent ↦
        rw sent
          (elim (insert-cases
            (record { user_id = user; action = action; status = status; created_at = w.now })
            w.tables) [
              | inl refused ↦ rw refused (refl, refl, refl)
              | inr added ↦ rw added (refl, refl, refl)
            ])
  ])
]

-- A request that is new.
initiate_transfer-start_transfer :
    (env : Env) (user : Uuid) (req : TransferRequest) (w : World)
    → Fine w
    → (str_eq req.idempotency_key "" ≡ true) ⊎ (made_before req.idempotency_key w.tables ≡ none)
    → initiate_transfer env user req w ≡ start_transfer env user req w
unfolding initiate_transfer get_by_idempotency_key ◌>>=◌
initiate_transfer-start_transfer env user req w fine new =
    elim (Bool-cases (str_eq req.idempotency_key "")) [
      | inl keyless ↦ rw keyless refl
      | inr keyed ↦
          rw (keyed, query-Fine (made_before req.idempotency_key) w fine)
            (elim new [ inl none_given ↦ ground arith | inr unknown ↦ rw unknown refl ])
    ]

-- A plan that fails.
start_transfer_refused :
    (env : Env) (user : Uuid) (req : TransferRequest) (w : World) (e : Error)
    → build_debit_plan env user req.amount w ≡ (err e, w)
    → ((start_transfer env user req w).0 ≡ err e) × OnlyAudited w (start_transfer env user req w).1
unfolding start_transfer ◌>>=◌
start_transfer_refused env user req w e h = rw h (elim (Bool-cases env.has_audit) [
  | inl audited ↦ rw audited (refl, audit-OnlyAudited (some user) "transfer_attempt" "failed" w)
  | inr silent ↦ rw silent (refl, (refl, refl, refl))
])

-- On a connection that works, where balances and cushions are below 2^62 in size, a new request for
-- more than the wallet and the banks have together is refused for insufficient funds: it leaves at
-- most an entry in `audit_logs`, no money is held or debited, and no provider is asked.
pub initiate_transfer_refused :
    (env : Env) (user : Uuid) (req : TransferRequest) (r : ℕ) (w : World)
    → Fine w
    → All IsSound w.tables.bank_accounts
    → r < 2 ^ 63
    → req.amount ≡ pos r
    → spendable user w.tables < r
    → (str_eq req.idempotency_key "" ≡ true) ⊎ (made_before req.idempotency_key w.tables ≡ none)
    → ((initiate_transfer env user req w).0 ≡ err insufficient_funds)
      × OnlyAudited w (initiate_transfer env user req w).1
initiate_transfer_refused env user req r w fine sound small amount short new =
    let nothing : leb r (spendable user w.tables) ≡ false = ground arith in
    rw (initiate_transfer-start_transfer env user req w fine new) (
      start_transfer_refused env user req w insufficient_funds
        (rw (amount, build_debit_plan-greedy env user r w fine small sound, nothing) refl))
