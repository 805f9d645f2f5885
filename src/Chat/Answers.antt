-- ===== src/Chat/Answers.antt =====
-- internal/handler/chat_tools.go: what the tools answer to the language model, and what they take from
-- outside. A refusal is a value: it is sent back to the model. Where its words
-- repeat an argument, the name of a bank or an error, those are left out.
use weave_server.Prelude.{ℕ, String, Bool, Option, List}
use weave_server.Model.{Amount, Wallet, WalletAccount, Transaction, BankAccount, BankFundRequest}
use weave_server.Service.TransferService.{TransferResult}
use weave_server.Chat.Pending.{PendingTransfer, PendingUnlink}

pub data ToolAnswer : Type 0 where
  refused : String → ToolAnswer
  pending_transfer : PendingTransfer → ToolAnswer
  pending_unlink : PendingUnlink → ToolAnswer
  transferred : TransferResult → PendingTransfer → ToolAnswer
  unlinked : PendingUnlink → ToolAnswer
  cancelled no_account : ToolAnswer
  wallet_balance : Wallet → ToolAnswer
  linked_banks : List BankAccount → ToolAnswer
  history : List Transaction → ToolAnswer
  transfer_status : Transaction → ToolAnswer
  resolved : (account name bank code : String) → ToolAnswer
  wallet_account : WalletAccount → ToolAnswer
  -- the bank's name, and none for an error of Mono
  refreshed : List (String × Option Amount) → ToolAnswer
  prioritized : String → ℕ → ToolAnswer
  funding : BankFundRequest → Amount → String → ToolAnswer

-- The banks that Paystack lists, the name of an account at one of them, by how many calls came before,
-- and `strings.ToLower` and
-- `strings.Contains`.
pub record PaystackBank : Type 0 where
  pub name : String
  pub slug : String
  pub code : String

pub record Directory : Type 0 where
  pub banks : ℕ → Option (List PaystackBank)
  pub resolve : ℕ → (account code : String) → Option String
  pub lower : String → String
  pub contains : (text part : String) → Bool
