-- ===== src/Chat/Dispatch.antt =====
-- internal/handler/chat_tools.go: `executeTool`, and the confirmation by a keyword of chat.go.
use weave_server.Prelude.{String, Option}
use weave_server.Prelude.Int.{ℤ}
use weave_server.Model.{Uuid}
use weave_server.Db.{M, pure, on_option, ◌>>=◌}
use weave_server.Provider.{Env}
use weave_server.Chat.Pending.{Codec, PendingAction, transfer, unlink, load_pending}
use weave_server.Chat.Answers.{ToolAnswer, refused, Directory}
use weave_server.Chat.Tools.{
  TransferArgs, tool_initiate_transfer, tool_confirm_transfer, tool_cancel_action,
}
use weave_server.Chat.Banks.{
  PriorityArgs, FundArgs, tool_get_linked_banks, tool_initiate_unlink, tool_confirm_unlink,
  tool_update_bank_priority, tool_refresh_bank_balance, tool_fund_wallet,
}
use weave_server.Chat.Reads.{
  tool_get_wallet_balance, tool_get_transfer_history, tool_get_wallet_history,
  tool_get_transfer_status, tool_lookup_account, tool_get_wallet_account,
}

-- The tools by name, with their arguments.
pub data ToolCall : Type 0 where
  get_wallet_balance get_linked_banks get_wallet_account : ToolCall
  get_transfer_history : (limit : ℤ) → (status : String) → ToolCall
  get_wallet_history : (limit : ℤ) → ToolCall
  get_transfer_status : Option String → ToolCall
  lookup_account : Option (String × String) → ToolCall
  initiate_transfer : (text : String) → Option TransferArgs → ToolCall
  confirm_transfer cancel_transfer confirm_unlink : ToolCall
  initiate_unlink : Option String → ToolCall
  refresh_bank_balance : String → ToolCall
  update_bank_priority : Option PriorityArgs → ToolCall
  fund_wallet : Option FundArgs → ToolCall
  unknown : String → ToolCall

-- `executeTool`
unfoldable pub execute_tool : Env → Codec → Directory → Uuid → ToolCall → M ToolAnswer
execute_tool env codec dir user_id get_wallet_balance = tool_get_wallet_balance user_id
execute_tool env codec dir user_id get_linked_banks = tool_get_linked_banks user_id
execute_tool env codec dir user_id get_wallet_account = tool_get_wallet_account user_id
execute_tool env codec dir user_id (get_transfer_history limit status) =
    tool_get_transfer_history env user_id limit status
execute_tool env codec dir user_id (get_wallet_history limit) =
    tool_get_wallet_history env user_id limit
execute_tool env codec dir user_id (get_transfer_status ref) = tool_get_transfer_status ref
execute_tool env codec dir user_id (lookup_account args) = tool_lookup_account env dir args
execute_tool env codec dir user_id (initiate_transfer text args) =
    tool_initiate_transfer env codec dir user_id text args
execute_tool env codec dir user_id confirm_transfer = tool_confirm_transfer env codec user_id
execute_tool env codec dir user_id cancel_transfer = tool_cancel_action env user_id
execute_tool env codec dir user_id (initiate_unlink identifier) =
    tool_initiate_unlink env codec dir user_id identifier
execute_tool env codec dir user_id confirm_unlink = tool_confirm_unlink env codec user_id
execute_tool env codec dir user_id (refresh_bank_balance identifier) =
    tool_refresh_bank_balance env dir user_id identifier
execute_tool env codec dir user_id (update_bank_priority args) =
    tool_update_bank_priority dir user_id args
execute_tool env codec dir user_id (fund_wallet args) = tool_fund_wallet env dir user_id args
execute_tool env codec dir user_id (unknown name) = pure (refused "unknown tool")

-- What a keyword for yes confirms.
unfoldable pub confirm_action : Env → Codec → Uuid → PendingAction → M ToolAnswer
confirm_action env codec user_id (transfer t) = tool_confirm_transfer env codec user_id
confirm_action env codec user_id (unlink u) = tool_confirm_unlink env codec user_id

-- `shortcutConfirm`
unfoldable pub shortcut_confirm : Env → Codec → Uuid → M ToolAnswer
shortcut_confirm env codec user_id = do
  action ← load_pending env codec user_id
  on_option action
      (pure (
        refused
          "No pending action to confirm. Start a new transfer by saying \"send 5000 to 0123456789\"."))
      (λ a. confirm_action env codec user_id a)
