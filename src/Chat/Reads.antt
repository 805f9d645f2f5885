-- ===== src/Chat/Reads.antt =====
-- internal/handler/chat_tools.go: the tools that only read.
use weave_server.Prelude.{
  String, not, ◌||◌, Option, none, some, List, [], ◌∷◌, str_eq, if◌then◌else◌,
}
use weave_server.Prelude.Int.{ℤ, pos, leb_ℤ, ltb_ℤ}
use weave_server.Model.{Uuid, WalletAccount}
use weave_server.Db.{M, pure, attempt, on_result, on_option, Result, ok, err, ◌>>=◌}
use weave_server.Provider.{Env, try_provider}
use weave_server.Repository.TransactionRepo.{get_by_our_ref}
use weave_server.Repository.TransactionRepo.Filters.{TransactionFilter, list_by_user_id}
use weave_server.Service.WalletService.{get_balance, get_wallet_account}
use weave_server.Chat.Answers.{
  ToolAnswer, refused, wallet_balance, history, transfer_status, resolved, wallet_account,
  no_account, Directory,
}
use weave_server.Chat.Tools.{resolve_bank_code}

-- `toolGetWalletBalance`
unfoldable pub tool_get_wallet_balance : Uuid → M ToolAnswer
tool_get_wallet_balance user_id = do
  found ← attempt (get_balance user_id)
  on_result found (λ e. pure (refused "could not fetch wallet balance"))
      (λ w. pure (wallet_balance w))

-- A limit from 1 to 20, or else 5.
abbrev pub limit_or_5 : ℤ → ℤ
limit_or_5 limit = if leb_ℤ limit (pos 0) || ltb_ℤ (pos 20) limit then pos 5 else limit

abbrev pub newest : ℤ → (statuses types : List String) → TransactionFilter
newest limit statuses types = record {
  statuses = statuses;
  types = types;
  from = none;
  to = none;
  limit = limit_or_5 limit;
  offset = pos 0;
}

-- `toolGetTransferHistory`; an argument that is not there is 0 or "".
unfoldable pub tool_get_transfer_history : Env → Uuid → ℤ → String → M ToolAnswer
tool_get_transfer_history env user_id limit status = do
  txns ← attempt (
      list_by_user_id env.ties user_id (
        newest limit (if str_eq status "" then [] else status ∷ [])
          ("debit_leg" ∷ "payout_leg" ∷ [])))
  on_result txns (λ e. pure (refused "could not fetch transfer history"))
      (λ rows. pure (history rows))

-- `toolGetWalletHistory`
unfoldable pub tool_get_wallet_history : Env → Uuid → ℤ → M ToolAnswer
tool_get_wallet_history env user_id limit = do
  txns ← attempt (list_by_user_id env.ties user_id (newest limit [] ("deposit" ∷ [])))
  on_result txns (λ e. pure (refused "could not fetch wallet history"))
      (λ rows. pure (history rows))

-- `toolGetTransferStatus`: whose transfer it is is not asked.
unfoldable pub tool_get_transfer_status : Option String → M ToolAnswer
tool_get_transfer_status decoded =
    on_option decoded (pure (refused "reference is required")) (λ ref.
      if str_eq ref "" then pure (refused "reference is required") else do
        read ← attempt (get_by_our_ref ref)
        on_result read (λ e. pure (refused "no transfer found"))
            (λ found.
              on_option found (pure (refused "no transfer found"))
                (λ txn. pure (transfer_status txn))))

abbrev pub account_known : (account bank code : String) → Option String → ToolAnswer
account_known account bank code none = refused "account could not be resolved"
account_known account bank code (some name) = resolved account name bank code

-- `toolLookupAccount` with the code of the bank.
abbrev pub lookup_under : Directory → (account bank code : String) → M ToolAnswer
lookup_under dir account bank code =
    if str_eq code "" then pure (refused "bank not recognised") else do
      name ← try_provider (λ n. dir.resolve n account code)
      pure (account_known account bank code name)

-- `toolLookupAccount`
unfoldable pub tool_lookup_account : Env → Directory → Option (String × String) → M ToolAnswer
tool_lookup_account env dir decoded =
    if not env.has_paystack
    then pure (refused "account lookup is not available right now")
    else on_option decoded (pure (refused "invalid arguments")) (λ args.
      if str_eq args.0 "" || str_eq args.1 ""
      then pure (refused "account_number and bank are required")
      else do
        listed ← try_provider dir.banks
        on_option listed (pure (refused "could not fetch bank list"))
            (λ banks. lookup_under dir args.0 args.1 (resolve_bank_code dir banks args.1)))

abbrev pub account_read : Result (Option WalletAccount) → Option WalletAccount
account_read (ok found) = found
account_read (err e) = none

-- `toolGetWalletAccount`
unfoldable pub tool_get_wallet_account : Uuid → M ToolAnswer
tool_get_wallet_account user_id = do
  found ← attempt (get_wallet_account user_id)
  on_option (account_read found) (pure no_account) (λ account. pure (wallet_account account))
