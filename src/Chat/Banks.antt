-- ===== src/Chat/Banks.antt =====
-- internal/handler/chat_tools.go: the tools about linked banks.
use weave_server.Prelude.{
  ℕ, String, Bool, true, false, not, ◌||◌, Option, none, some, List, [], ◌∷◌, find, str_eq, ltb,
  if◌then◌else◌,
}
use weave_server.Prelude.Int.{pos, leb_ℤ, ◌*ℤ◌}
use weave_server.Model.{Uuid, Amount, BankAccount}
use weave_server.Db.{
  M, Error, Result, ok, err, pure, attempt, ignore, on_result, on_option, ◌>>=◌, ◌>>◌,
  amount_too_small, amount_too_large, daily_limit_exceeded, bank_not_active, mono_unavailable,
  direct_debit_failed,
}
use weave_server.Provider.{Env, Decimal, whole, call_provider}
use weave_server.Repository.BankAccountRepo
use weave_server.Service.WalletService.{fund_from_bank}
use weave_server.Chat.Answers.{
  ToolAnswer, refused, pending_unlink, unlinked, linked_banks, refreshed, prioritized, funding,
  Directory,
}
use weave_server.Chat.Pending.{
  PendingAction, PendingUnlink, transfer, unlink, Codec, store_pending, load_pending, clear_pending,
}

-- `toolGetLinkedBanks`
unfoldable pub tool_get_linked_banks : Uuid → M ToolAnswer
tool_get_linked_banks user_id = do
  banks ← attempt (BankAccountRepo.get_by_user_id user_id 20 0)
  on_result banks (λ e. pure (refused "could not fetch linked banks"))
      (λ bs. pure (linked_banks bs))

-- `findBankByIdentifier`
abbrev pub banks_read : Result (List BankAccount) → List BankAccount
banks_read (ok banks) = banks
banks_read (err e) = []

unfoldable pub find_bank_by_identifier : Directory → Uuid → String → M (Option BankAccount)
find_bank_by_identifier dir user_id identifier = do
  banks ← attempt (BankAccountRepo.get_by_user_id user_id 20 0)
  pure (
      find
        (λ b.
          dir.contains (dir.lower b.bank_name) (dir.lower identifier)
          || dir.contains b.account_number identifier)
        (banks_read banks))

abbrev pub to_unlink : Env → BankAccount → PendingUnlink
to_unlink env bank = record {
  bank_id = env.uuid_string bank.id;
  bank_name = bank.bank_name;
  account_number = bank.account_number;
}

-- `toolInitiateUnlink`: the argument is the identifier.
unfoldable pub tool_initiate_unlink : Env → Codec → Directory → Uuid → Option String → M ToolAnswer
tool_initiate_unlink env codec dir user_id decoded =
    on_option decoded (pure (refused "bank_identifier is required")) (λ identifier.
      if str_eq identifier "" then pure (refused "bank_identifier is required") else do
        found ← find_bank_by_identifier dir user_id identifier
        on_option found (pure (refused "no linked bank")) (λ bank. do
          store_pending env codec user_id (unlink (to_unlink env bank))
          pure (pending_unlink (to_unlink env bank))))

unfoldable pub confirm_removal : Env → Uuid → PendingAction → M ToolAnswer
confirm_removal env user_id (transfer t) =
    pure (refused "pending action is \"transfer\", not an unlink")
confirm_removal env user_id (unlink u) =
    on_option (env.uuid_parse u.bank_id) (pure (refused "invalid bank reference")) (λ bank_id. do
      gone ← attempt (BankAccountRepo.delete bank_id)
      on_result gone (λ e. pure (refused "failed to unlink bank"))
          (λ _. do clear_pending env user_id; pure (unlinked u)))

-- `toolConfirmUnlink`
unfoldable pub tool_confirm_unlink : Env → Codec → Uuid → M ToolAnswer
tool_confirm_unlink env codec user_id = do
  action ← load_pending env codec user_id
  on_option action (pure (refused "no pending unlink found")) (λ a. confirm_removal env user_id a)

-- `toolUpdateBankPriority`
pub record PriorityArgs : Type 0 where
  pub bank_identifier : String
  pub priority : ℕ

unfoldable pub tool_update_bank_priority : Directory → Uuid → Option PriorityArgs → M ToolAnswer
tool_update_bank_priority dir user_id decoded =
    on_option decoded (pure (refused "invalid arguments")) (λ args.
      if ltb args.priority 1 || ltb 5 args.priority
      then pure (refused "priority must be between 1 and 5")
      else do
        found ← find_bank_by_identifier dir user_id args.bank_identifier
        on_option found (pure (refused "no linked bank")) (λ bank. do
          changed ← attempt (BankAccountRepo.update_priority bank.id args.priority)
          on_result changed (λ e. pure (refused "failed to update priority"))
              (λ _. pure (prioritized bank.bank_name args.priority))))

-- One bank of `toolRefreshBankBalance`: the error of UpdateBalance is dropped.
unfoldable pub refresh_target : Env → BankAccount → M (String × Option Amount)
refresh_target env bank = do
  answer ← attempt (call_provider (λ _. env.mono_balance bank.provider_token))
  on_result answer (λ e. pure (bank.bank_name, none))
      (λ balance. do
        ignore (BankAccountRepo.update_balance bank.id (whole balance))
        pure (bank.bank_name, some (whole balance)))

unfoldable pub refresh_targets : Env → List BankAccount → M (List (String × Option Amount))
refresh_targets env [] = pure []
refresh_targets env (bank ∷ banks) = do
  result ← refresh_target env bank
  results ← refresh_targets env banks
  pure (result ∷ results)

abbrev pub no_banks : List BankAccount → Bool
no_banks [] = true
no_banks (bank ∷ banks) = false

-- `toolRefreshBankBalance`: the argument is the identifier, "" for all banks.
unfoldable pub tool_refresh_bank_balance : Env → Directory → Uuid → String → M ToolAnswer
tool_refresh_bank_balance env dir user_id identifier =
    if not env.has_mono then pure (refused "balance refresh is not available right now") else do
      banks ← attempt (BankAccountRepo.get_by_user_id user_id 20 0)
      if no_banks (banks_read banks)
          then pure (refused "no linked banks found")
          else if str_eq identifier ""
          then (do results ← refresh_targets env (banks_read banks); pure (refreshed results))
          else do
            found ← find_bank_by_identifier dir user_id identifier
            on_option found (pure (refused "no linked bank"))
                (λ bank. do results ← refresh_targets env (bank ∷ []); pure (refreshed results))

-- The amount is a float64 of naira.
pub record FundArgs : Type 0 where
  pub bank_identifier : String
  pub amount : Decimal

abbrev pub fund_refusal : Error → String
fund_refusal amount_too_small = "minimum top-up is ₦100"
fund_refusal amount_too_large = "maximum single top-up is ₦500,000"
fund_refusal daily_limit_exceeded = "you've reached your daily top-up limit of ₦1,000,000"
fund_refusal bank_not_active = "not currently active"
fund_refusal mono_unavailable =
    "bank top-up is temporarily unavailable — fund your wallet via bank transfer instead"
fund_refusal direct_debit_failed = "Mono rejected the direct debit"
fund_refusal _ = "top-up failed"

-- `toolFundWallet`
unfoldable pub tool_fund_wallet : Env → Directory → Uuid → Option FundArgs → M ToolAnswer
tool_fund_wallet env dir user_id decoded =
    on_option decoded (pure (refused "invalid fund_wallet arguments")) (λ args.
      if leb_ℤ args.amount (pos 0)
      then pure (refused "amount must be positive")
      else if str_eq args.bank_identifier ""
      then pure (refused "bank_identifier is required")
      else do
        found ← find_bank_by_identifier dir user_id args.bank_identifier
        on_option found (pure (refused "no linked bank found")) (λ bank. do
          made ← attempt (fund_from_bank env user_id bank.id (whole (args.amount *ℤ pos 100)))
          on_result made (λ e. pure (refused (fund_refusal e)))
              (λ req. pure (funding req (whole (args.amount *ℤ pos 100)) bank.bank_name))))
