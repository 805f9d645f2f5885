-- ===== src/Service/PayoutService.antt =====
-- internal/service/payout_service.go: payouts by Paystack, with a cache of recipients.
pub mod Cache
pub mod Backed
use Prim.Native.String.{◌++◌ as append, slice}
use weave_server.Prelude.{String, Option, none, some, List, [], ◌∷◌, str_eq, if◌then◌else◌}
use weave_server.Model.{Amount}
use weave_server.Db.{on_option, M, pure, gets, ◌>>=◌, ◌>>◌, ok}
use weave_server.Provider.{Env, call_create_recipient, call_transfer}

-- `recipientKey`: the first 16 bytes of the hash, 32 digits.
unfoldable pub recipient_key : Env → (account bank : String) → String
recipient_key env account bank = slice (env.sha256_hex (append account (append ":" bank))) 0 32

unfoldable pub cached : String → List (String × String) → Option String
cached key [] = none
cached key ((k, code) ∷ rest) = if str_eq k key then some code else cached key rest

unfoldable pub remember : String → String → M (Unit {0})
remember key code w = (ok tt, record w { recipients = (key, code) ∷ w.recipients })

-- `createOrGetRecipient`
unfoldable pub create_or_get_recipient : Env → (account bank name : String) → M String
create_or_get_recipient env account bank name = do
  hit ← gets (λ w. cached (recipient_key env account bank) w.recipients)
  on_option hit
      (do
        code ← call_create_recipient env account bank name
        remember (recipient_key env account bank) code
        pure code)
      pure

-- `SendPayout`
unfoldable pub send_payout : Env → String → Amount → (account bank name : String) → M String
send_payout env our_ref amount account bank name = do
  recipient ← create_or_get_recipient env account bank name
  call_transfer env (record { amount = amount; recipient = recipient; reference = our_ref })
