-- ===== src/Chat/Wording.antt =====
-- internal/handler/chat.go, chat_tools.go and chat_support.go: the texts of the chat.
use Prim.Native.String.{◌++◌ as append}
use weave_server.Prelude.{
  ℕ, ◌+◌, String, Option, none, some, List, [], ◌∷◌, length, str_eq, if◌then◌else◌,
}
use weave_server.Prelude.Int.{ℤ, pos, ltb_ℤ, eqb_ℤ}
use weave_server.Model.{Amount, add, BankAccount, Wallet, DebitLeg, DebitPlan}
use weave_server.Service.TransferService.{TransferResult}
use weave_server.Chat.Pending.{PendingTransfer}
use weave_server.Chat.Answers.{ToolAnswer, refused, transferred, unlinked, linked_banks}

-- What `fmt` and `strings` do: "%.2f" of an amount in naira, "%d" of a number, `TrimSpace`, and `Sscanf`
-- with "%d", none where it reads no number. The last is the part of the prompt that is always the same.
pub record Format : Type 0 where
  pub naira : Amount → String
  pub number : ℕ → String
  pub trim_space : String → String
  pub scan_number : String → Option ℤ
  pub instructions : String

abbrev pub concat : List String → String
concat [] = ""
concat (s ∷ ss) = append s (concat ss)

abbrev pub bank_lines : Format → ℕ → List BankAccount → List String
bank_lines fmt i [] = []
bank_lines fmt i (b ∷ bs) =
    "\n"
    ∷ fmt.number (i + 1)
    ∷ ". "
    ∷ b.bank_name
    ∷ " · "
    ∷ b.account_number
    ∷ "\n   Balance: ₦"
    ∷ fmt.naira b.last_balance
    ∷ " · Priority: "
    ∷ fmt.number b.priority
    ∷ bank_lines fmt (i + 1) bs

-- `formatLinkedBanks`
unfoldable pub format_linked_banks : Format → List BankAccount → String
format_linked_banks fmt [] =
    "You don't have any linked bank accounts yet. Tap the Banks tab to link one."
format_linked_banks fmt (b ∷ bs) = append "You have " (
    append (fmt.number (length (b ∷ bs))) (
      append " linked bank account(s):\n" (
        append (concat (bank_lines fmt 0 (b ∷ bs)))
          "\n\nSay \"refresh [bank] balance\" or \"set [bank] as priority 1\" to manage them.")))

abbrev pub legs_of : Option DebitPlan → List DebitLeg
legs_of none = []
legs_of (some plan) = plan.legs

abbrev pub leg_line : Format → DebitLeg → String
leg_line fmt leg = concat (
    "  "
    ∷ leg.bank_name
    ∷ "  -₦"
    ∷ fmt.naira leg.amount
    ∷ (if ltb_ℤ (pos 0) leg.fee then append " + ₦" (append (fmt.naira leg.fee) " fee") else "")
    ∷ "\n"
    ∷ [])

abbrev pub leg_lines : Format → List DebitLeg → List String
leg_lines fmt [] = []
leg_lines fmt (leg ∷ legs) = leg_line fmt leg ∷ leg_lines fmt legs

abbrev pub fees_of : List DebitLeg → Amount
fees_of [] = pos 0
fees_of (leg ∷ legs) = add leg.fee (fees_of legs)

-- `formatConfirmedTransfer`
unfoldable pub format_confirmed_transfer : Format → TransferResult → PendingTransfer → String
format_confirmed_transfer fmt done t =
    let legs = legs_of done.debit_plan in
    let fees = fees_of legs in
    concat (
      "✅ Done!\n\n"
      ∷ concat (leg_lines fmt legs)
      ∷ "\nSent ₦"
      ∷ fmt.naira t.amount
      ∷ " to "
      ∷ (if str_eq t.recipient_name ""
          then t.recipient_account
          else concat (t.recipient_name ∷ " (" ∷ t.recipient_account ∷ ")" ∷ []))
      ∷ (if ltb_ℤ (pos 0) fees then append " · fees ₦" (fmt.naira fees) else "")
      ∷ "\nRef: "
      ∷ done.our_ref
      ∷ [])

-- `helpText`, without the variation selector after one of its signs.
abbrev pub help_text : String
help_text = concat (
    "Here's everything I can help you with:\n\n"
    ∷ "💸 Send money — \"send 5000 to 0123456789 at GTBank\"\n"
    ∷ "✅ Confirm/cancel — \"yes\" or \"cancel\" after a preview\n"
    ∷ "💰 Check balance — \"what's my balance?\"\n"
    ∷ "📋 Transfer history — \"show my recent transfers\"\n"
    ∷ "🔎 Transfer status — \"what's the status of WVF-abc123?\"\n"
    ∷ "🔍 Lookup account — \"who is 0123456789 at Zenith?\"\n"
    ∷ "➕ Fund wallet — \"how do I fund my wallet?\"\n"
    ∷ "📊 Wallet deposits — \"show my wallet history\"\n"
    ∷ "🏦 Linked banks — \"show my bank accounts\"\n"
    ∷ "🔗 Link a bank — \"link my GTBank account\"\n"
    ∷ "🗑  Unlink a bank — \"unlink my Access Bank\"\n"
    ∷ "⭐ Set priority — \"make Zenith my priority 1 account\"\n"
    ∷ "🔄 Refresh balance — \"refresh my GTBank balance\"\n\n"
    ∷ "Just talk naturally — I'll figure out what you need." ∷ [])

-- What `shortcutConfirm` says.
unfoldable pub confirm_text : Format → ToolAnswer → String
confirm_text fmt (refused reason) = reason
confirm_text fmt (transferred done t) = format_confirmed_transfer fmt done t
confirm_text fmt (unlinked u) =
    concat ("✅ " ∷ u.bank_name ∷ " (" ∷ u.account_number ∷ ") has been unlinked." ∷ [])
confirm_text fmt _ = "Nothing to confirm."

-- What the keyword for banks says.
unfoldable pub banks_text : Format → ToolAnswer → String
banks_text fmt (linked_banks bs) = format_linked_banks fmt bs
banks_text fmt _ = "Couldn't fetch your banks right now."

abbrev pub owned_lines : Format → List BankAccount → List String
owned_lines fmt [] = []
owned_lines fmt (b ∷ bs) =
    "\n  • " ∷ b.bank_name ∷ " — ₦" ∷ fmt.naira b.last_balance ∷ owned_lines fmt bs

abbrev pub balance_banks : Format → List BankAccount → String
balance_banks fmt [] = "\n\nNo linked banks yet. Tap Banks to add one."
balance_banks fmt (b ∷ bs) =
    concat ("\n\n🏦 Linked banks (" ∷ fmt.number (length (b ∷ bs)) ∷ "):" ∷ owned_lines fmt (b ∷ bs))

-- The text of `directBalance`
unfoldable pub balance_text : Format → Wallet → List BankAccount → String
balance_text fmt w banks = concat (
    "💰 Wallet: ₦"
    ∷ fmt.naira w.ledger_balance
    ∷ (if eqb_ℤ w.ledger_balance w.balance
        then ""
        else concat (" (₦" ∷ fmt.naira w.balance ∷ " total)" ∷ []))
    ∷ balance_banks fmt banks
    ∷ [])
