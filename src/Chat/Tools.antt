-- ===== src/Chat/Tools.antt =====
-- internal/handler/chat_tools.go: the tools that propose, confirm and cancel a transfer. The
-- language model calls them with arguments in JSON, here decoded; none is a text that cannot be
-- decoded.
use Prim.Native.String.{◌++◌ as append, slice}
use weave_server.Prelude.{
  String, ◌&&◌, ◌||◌, Option, none, some, List, [], ◌∷◌, str_eq, if◌then◌else◌,
}
use weave_server.Prelude.Int.{pos, leb_ℤ}
use weave_server.Model.{Uuid, new_amount}
use weave_server.Db.{M, Error, insufficient_funds, pure, attempt, on_result, on_option, ◌>>=◌, ◌>>◌}
use weave_server.Provider.{Env, Decimal, whole, try_provider}
use weave_server.Service.TransferService.{TransferRequest, initiate_transfer}
use weave_server.Chat.Pending.{
  PendingAction, PendingTransfer, transfer, unlink, Codec, store_pending, load_pending,
  clear_pending,
}
use weave_server.Chat.Answers.{
  ToolAnswer, refused, pending_transfer, transferred, cancelled, PaystackBank, Directory,
}

pub record TransferArgs : Type 0 where
  pub amount : Decimal
  pub recipient_account : String
  pub recipient_bank : String
  pub recipient_name : String

-- `resolveBankCode`
unfoldable pub resolve_bank_code : Directory → List PaystackBank → String → String
resolve_bank_code dir [] name = ""
resolve_bank_code dir (b ∷ bs) name =
    let rest = resolve_bank_code dir bs name in
    if dir.contains (dir.lower b.name) (dir.lower name)
      || dir.contains (dir.lower b.slug) (dir.lower name)
    then b.code
    else rest

abbrev pub or_empty : Option String → String
or_empty none = ""
or_empty (some name) = name

-- The name of the account at the bank with this code: a request to Paystack.
abbrev pub name_under : Directory → TransferArgs → (code : String) → M String
name_under dir args code = if str_eq code "" then pure "" else do
  name ← try_provider (λ n. dir.resolve n args.recipient_account code)
  pure (or_empty name)

-- The name of the account at the bank that is named: Paystack is asked for its banks first.
abbrev pub name_at : Directory → TransferArgs → M String
name_at dir args = do
  listed ← try_provider dir.banks
  on_option listed (pure "")
      (λ banks. name_under dir args (resolve_bank_code dir banks args.recipient_bank))

-- The name that is given, or else the one that Paystack knows.
unfoldable pub recipient_name_of : Env → Directory → TransferArgs → M String
recipient_name_of env dir args =
    if str_eq args.recipient_name "" && env.has_paystack
    then name_at dir args
    else pure args.recipient_name

-- `hashMessage`: the first 16 bytes of the hash.
abbrev pub hash_message : Env → String → String
hash_message env text = slice (env.sha256_hex text) 0 32

abbrev pub proposed : Env → Uuid → String → TransferArgs → (name : String) → PendingTransfer
proposed env user_id text args name = record {
  amount = new_amount (whole args.amount);
  recipient_account = args.recipient_account;
  recipient_bank = args.recipient_bank;
  recipient_name = name;
  idempotency_key = append (env.uuid_string user_id) (append ":" (hash_message env text));
}

-- The guards of `toolInitiateTransfer`: a text where they refuse.
abbrev pub bad_args : TransferArgs → Option String
bad_args args =
    if leb_ℤ args.amount (pos 0)
    then some "amount must be greater than zero"
    else if str_eq args.recipient_account "" || str_eq args.recipient_bank ""
    then some "recipient_account and recipient_bank are required"
    else none

-- `toolInitiateTransfer`
unfoldable pub tool_initiate_transfer :
    Env → Codec → Directory → Uuid → (text : String) → Option TransferArgs → M ToolAnswer
tool_initiate_transfer env codec dir user_id text decoded =
    on_option decoded (pure (refused "invalid transfer arguments")) (λ args.
      on_option (bad_args args)
        (do
          name ← recipient_name_of env dir args
          store_pending env codec user_id (transfer (proposed env user_id text args name))
          pure (pending_transfer (proposed env user_id text args name)))
        (λ reason. pure (refused reason)))

abbrev pub confirmed_request : PendingTransfer → TransferRequest
confirmed_request t = record {
  amount = t.amount;
  recipient_account = t.recipient_account;
  recipient_bank = t.recipient_bank;
  recipient_name = t.recipient_name;
  idempotency_key = t.idempotency_key;
}

abbrev pub transfer_refusal : Error → String
transfer_refusal insufficient_funds =
    "insufficient funds — the user needs to top up their wallet or link a bank with enough balance"
transfer_refusal _ = "transfer failed"

unfoldable pub confirm : Env → Uuid → PendingAction → M ToolAnswer
confirm env user_id (unlink u) = pure (
    refused
      "pending action is not a transfer (it is \"unlink\") — call the appropriate confirm tool")
confirm env user_id (transfer t) = do
  result ← attempt (initiate_transfer env user_id (confirmed_request t))
  on_result result (λ e. pure (refused (transfer_refusal e)))
      (λ done. do clear_pending env user_id; pure (transferred done t))

-- `toolConfirmTransfer`
unfoldable pub tool_confirm_transfer : Env → Codec → Uuid → M ToolAnswer
tool_confirm_transfer env codec user_id = do
  action ← load_pending env codec user_id
  on_option action (pure (refused "no pending transfer found — it may have expired"))
      (λ a. confirm env user_id a)

-- `toolCancelAction`
unfoldable pub tool_cancel_action : Env → Uuid → M ToolAnswer
tool_cancel_action env user_id = do clear_pending env user_id; pure cancelled
