-- ===== src/Handler/Webhooks.antt =====
-- internal/handler/wallet.go: `WebhookHandler`, and `MonoWebhook` of bank.go. A signature is the text
-- of its header, "" if there is none; `body` is the text of the body, and `payload` what it decodes to.
pub mod Signature
use weave_server.Prelude.{String, not, ◌&&◌, ◌||◌, Option, str_eq, if◌then◌else◌}
use weave_server.Model.{Amount}
use weave_server.Http.{status}
use weave_server.Provider.{Env, Decimal, whole}
use weave_server.Service.WalletService.{complete_fund_from_bank, process_deposit_webhook}
use weave_server.Handler.Response.{Action, respond_json, respond_error, handle, decode, refuse_if}

pub record MonoDirectDebitPayload : Type 0 where
  pub event : String
  pub reference : String
  pub amount : Amount

-- `MonoDirectDebit`
unfoldable pub mono_direct_debit :
    Env → (signature body : String) → Option MonoDirectDebitPayload → Action
mono_direct_debit env signature body payload =
    refuse_if (env.has_mono && (not (str_eq signature "") && not (env.mono_verify signature body)))
      401 "invalid_signature"
      (decode payload "invalid_payload" (λ p.
        if not (str_eq p.event "mono.events.direct_debit.successful")
        then respond_json 200 (status "ignored")
        else handle (complete_fund_from_bank env p.reference p.amount)
            (λ e. respond_json 200 (status "success")) (λ _. respond_json 200 (status "success"))))

pub record PaystackPayload : Type 0 where
  pub event : String
  pub amount : Amount
  pub reference : String
  pub fees : Amount
  pub account_number : String

-- `PaystackDeposit`
unfoldable pub paystack_deposit : Env → (signature body : String) → Option PaystackPayload → Action
paystack_deposit env signature body payload =
    refuse_if
      (env.has_paystack && (not (str_eq signature "") && not (env.paystack_verify signature body)))
      401 "invalid_signature"
      (decode payload "invalid_payload" (λ p.
        if not (str_eq p.event "charge.success")
        then respond_json 200 (status "ignored")
        else refuse_if (str_eq p.account_number "") 400 "missing_account_number" (
            handle (process_deposit_webhook p.account_number p.amount p.fees "paystack" p.reference)
              (λ e. respond_json 200 (status "accepted"))
              (λ _. respond_json 200 (status "success")))))

-- The amount is a float64 of kobo.
pub record MonoPayload : Type 0 where
  pub event : String
  pub reference : String
  pub amount : Decimal

-- `MonoWebhook`
unfoldable pub mono_webhook : Env → (signature body : String) → Option MonoPayload → Action
mono_webhook env signature body payload =
    refuse_if (env.has_mono && (str_eq signature "" || not (env.mono_verify signature body))) 401
      "invalid_signature"
      (decode payload "invalid_payload" (λ p.
        if str_eq p.event "payment.successful"
        then handle (complete_fund_from_bank env p.reference (whole p.amount))
            (λ e. respond_error 500 "complete_failed") (λ _. respond_json 200 (status "success"))
        else respond_json 200 (status "ignored")))
