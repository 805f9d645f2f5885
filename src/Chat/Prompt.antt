-- ===== src/Chat/Prompt.antt =====
-- internal/handler/chat_support.go: `buildAgentPrompt`. Its three reads run at the same time; here they
-- stand in the order of the code.
use weave_server.Prelude.{String, not, Option, none, some, List, [], ◌∷◌, length, if◌then◌else◌}
use weave_server.Model.{Uuid, BankAccount, Wallet, WalletAccount}
use weave_server.Db.{M, Result, ok, err, pure, attempt, ◌>>=◌}
use weave_server.Provider.{Env}
use weave_server.Repository.BankAccountRepo
use weave_server.Service.WalletService.{get_balance, get_wallet_account}
use weave_server.Chat.Pending.{Codec, PendingAction, transfer, unlink, load_pending}
use weave_server.Chat.Banks.{banks_read}
use weave_server.Chat.Wording.{Format, concat}

abbrev pub wallet_line : Format → Result Wallet → String
wallet_line fmt (err e) = ""
wallet_line fmt (ok w) = concat (
    "WALLET: ₦"
    ∷ fmt.naira w.ledger_balance
    ∷ " available (₦"
    ∷ fmt.naira w.balance
    ∷ " total)\n"
    ∷ [])

abbrev pub bank_status : BankAccount → String
bank_status b =
    if not b.is_active
    then "inactive"
    else if not b.is_verified
    then "active,not-verified"
    else "active+verified"

abbrev pub status_lines : Format → List BankAccount → List String
status_lines fmt [] = []
status_lines fmt (b ∷ bs) =
    concat (
      "  • "
      ∷ b.bank_name
      ∷ " ["
      ∷ b.account_number
      ∷ "] ₦"
      ∷ fmt.naira b.last_balance
      ∷ " priority="
      ∷ fmt.number b.priority
      ∷ " status="
      ∷ bank_status b
      ∷ "\n"
      ∷ [])
    ∷ status_lines fmt bs

abbrev pub banks_section : Format → List BankAccount → String
banks_section fmt [] = "LINKED BANKS: none\n"
banks_section fmt (b ∷ bs) =
    concat ("LINKED BANKS (" ∷ fmt.number (length (b ∷ bs)) ∷ "):\n" ∷ status_lines fmt (b ∷ bs))

abbrev pub pending_section : Format → Option PendingAction → String
pending_section fmt none = ""
pending_section fmt (some (transfer t)) = concat (
    "\nPENDING TRANSFER (awaiting user confirmation):\n  Amount: ₦"
    ∷ fmt.naira t.amount
    ∷ "  To: "
    ∷ t.recipient_account
    ∷ "  Bank: "
    ∷ t.recipient_bank
    ∷ "  Name: "
    ∷ t.recipient_name
    ∷ "\n"
    ∷ [])
pending_section fmt (some (unlink u)) = concat (
    "\nPENDING UNLINK (awaiting user confirmation): " ∷ u.bank_name ∷ " (" ∷ u.account_number
    ∷ ")\n" ∷ [])

abbrev pub account_line : Result (Option WalletAccount) → String
account_line (err e) = "VIRTUAL ACCOUNT: not yet created\n"
account_line (ok none) = "VIRTUAL ACCOUNT: not yet created\n"
account_line (ok (some a)) = concat (
    "VIRTUAL ACCOUNT: " ∷ a.account_number ∷ " at " ∷ a.bank_name ∷ " (name: " ∷ a.account_name
    ∷ ")\n" ∷ [])

-- `buildAgentPrompt`
unfoldable pub build_agent_prompt : Env → Codec → Format → Uuid → M String
build_agent_prompt env codec fmt user_id = do
  wallet ← attempt (get_balance user_id)
  banks ← attempt (BankAccountRepo.get_by_user_id user_id 10 0)
  account ← attempt (get_wallet_account user_id)
  action ← load_pending env codec user_id
  pure (
      concat (
        fmt.instructions
        ∷ wallet_line fmt wallet
        ∷ banks_section fmt (banks_read banks)
        ∷ pending_section fmt action
        ∷ account_line account
        ∷ []))
