-- ===== src/Chat/Toolbox.antt =====
-- The tools by name: internal/provider/llm/banking_tools.go, which offers them to the model, and the
-- switch of `executeTool`, which runs them. Descriptions and schemas are left out.
use weave_server.Prelude.{
  inr, inl, Bool-cases, map, All, ◌≡◌, refl, String, Bool, true, false, Option, List, [], ◌∷◌, any,
  str_eq, if◌then◌else◌,
}
use weave_server.Prelude.Int.{ℤ}
use weave_server.Model.{Uuid}
use weave_server.Db.{M}
use weave_server.Provider.{Env}
use weave_server.Chat.Pending.{Codec}
use weave_server.Chat.Answers.{ToolAnswer, Directory}
use weave_server.Chat.Tools.{TransferArgs}
use weave_server.Chat.Banks.{PriorityArgs, FundArgs}
use weave_server.Chat.Dispatch.{ToolCall, execute_tool}

-- `BankingTools`: the names that are offered.
abbrev pub banking_tools : List String
banking_tools =
    "get_wallet_balance" ∷ "get_linked_banks" ∷ "get_transfer_history" ∷ "get_transfer_status"
    ∷ "lookup_account" ∷ "initiate_transfer" ∷ "confirm_transfer" ∷ "cancel_transfer"
    ∷ "get_wallet_account" ∷ "refresh_bank_balance" ∷ "update_bank_priority" ∷ "initiate_unlink"
    ∷ "confirm_unlink" ∷ "get_wallet_history" ∷ "fund_wallet" ∷ []

-- `json.Unmarshal` on the arguments of a tool; none is a text that cannot be read.
pub record ArgsReader : Type 0 where
  pub history_limit : String → ℤ
  pub history_status : String → String
  pub deposits_limit : String → ℤ
  pub reference : String → Option String
  pub account_and_bank : String → Option (String × String)
  pub transfer : String → Option TransferArgs
  pub identifier_or_empty : String → String
  pub identifier : String → Option String
  pub priority : String → Option PriorityArgs
  pub fund : String → Option FundArgs

-- The cases of the switch of `executeTool`.
abbrev pub cases : ArgsReader → (arguments : String) → List (String × ToolCall)
cases reader args =
    ("get_wallet_balance", ToolCall.get_wallet_balance)
    ∷ ("get_linked_banks", ToolCall.get_linked_banks)
    ∷ (
      "get_transfer_history",
      ToolCall.get_transfer_history (reader.history_limit args) (reader.history_status args),
    )
    ∷ ("get_transfer_status", ToolCall.get_transfer_status (reader.reference args))
    ∷ ("lookup_account", ToolCall.lookup_account (reader.account_and_bank args))
    ∷ ("initiate_transfer", ToolCall.initiate_transfer args (reader.transfer args))
    ∷ ("confirm_transfer", ToolCall.confirm_transfer)
    ∷ ("cancel_transfer", ToolCall.cancel_transfer)
    ∷ ("get_wallet_account", ToolCall.get_wallet_account)
    ∷ ("refresh_bank_balance", ToolCall.refresh_bank_balance (reader.identifier_or_empty args))
    ∷ ("update_bank_priority", ToolCall.update_bank_priority (reader.priority args))
    ∷ ("initiate_unlink", ToolCall.initiate_unlink (reader.identifier args))
    ∷ ("confirm_unlink", ToolCall.confirm_unlink)
    ∷ ("get_wallet_history", ToolCall.get_wallet_history (reader.deposits_limit args))
    ∷ ("fund_wallet", ToolCall.fund_wallet (reader.fund args))
    ∷ []

-- The first case with the name.
unfoldable pub pick : String → List (String × ToolCall) → ToolCall
pick name [] = ToolCall.unknown name
pick name ((n, call) ∷ rest) = if str_eq n name then call else pick name rest

unfoldable pub call_of : ArgsReader → (name arguments : String) → ToolCall
call_of reader name args = pick name (cases reader args)

-- The function that HandleMessage hands to the agent.
unfoldable pub run_tool :
    Env → Codec → Directory → ArgsReader → Uuid → (name arguments : String) → M ToolAnswer
run_tool env codec dir reader user_id name args =
    execute_tool env codec dir user_id (call_of reader name args)

abbrev pub is_known : ToolCall → Bool
is_known (ToolCall.unknown name) = false
is_known _ = true

pick-known :
    (name : String) (xs : List (String × ToolCall))
    → All (λ x. is_known x.1 ≡ true) xs
    → is_known (pick name xs) ≡ any (λ t. str_eq t name) (map (λ x. x.0) xs)
unfolding pick
pick-known name [] h = refl
pick-known name ((n, call) ∷ rest) h = elim (Bool-cases (str_eq n name)) [
  | inl hit ↦ rw hit h.0
  | inr miss ↦ rw miss (pick-known name rest h.1)
]

-- Whatever the arguments, `executeTool` knows just the tools that are offered to the model.
pub call_of-known :
    (reader : ArgsReader) (name args : String)
    → is_known (call_of reader name args) ≡ any (λ t. str_eq t name) banking_tools
unfolding call_of
call_of-known reader name args = pick-known name (cases reader args) (
  refl,
  (
    refl,
    (
      refl,
      (
        refl,
        (refl, (refl, (refl, (refl, (refl, (refl, (refl, (refl, (refl, (refl, (refl, tt))))))))))),
      ),
    ),
  ),
)
