-- ===== src/Handler/Webhooks/Signature.antt =====
-- What the webhooks make of the signature.
use weave_server.Prelude.{
  ◌≡◌, refl, String, true, false, not, ◌&&◌, ◌||◌, ◌⊎◌, inl, inr, Option, str_eq, arith,
}
use weave_server.Db.{World}
use weave_server.Http.{Outcome, answered, respond, error}
use weave_server.Provider.{Env}
use weave_server.Handler.Webhooks.{MonoPayload, PaystackPayload, mono_webhook, paystack_deposit}

-- The answer to a signature that is wrong.
abbrev pub bad_signature : World → Outcome × World
bad_signature w = (answered (respond 401 (error "invalid_signature")), w)

-- Where Mono is configured, MonoWebhook of the bank handler refuses every body without a signature and
-- every one whose signature is wrong, whatever it says, and does nothing.
pub mono_webhook_unsigned :
    (env : Env) (signature body : String) (payload : Option MonoPayload) (w : World)
    → env.has_mono ≡ true
    → str_eq signature "" ≡ true ⊎ env.mono_verify signature body ≡ false
    → mono_webhook env signature body payload w ≡ bad_signature w
unfolding mono_webhook
mono_webhook_unsigned env signature body payload w mono (inl missing) = rw (mono, missing) refl
mono_webhook_unsigned env signature body payload w mono (inr wrong) =
    let refused : (str_eq signature "" || not (env.mono_verify signature body)) ≡ true =
      ground arith in
    rw (mono, refused) refl

-- Where Paystack is configured, PaystackDeposit refuses a signature that is there and wrong, and does
-- nothing; but without the header it does with the payload what it does under a right signature:
-- who leaves the signature out is believed.
pub paystack_deposit_signature :
    (env : Env) (bad good body : String) (payload : Option PaystackPayload) (w : World)
    → env.has_paystack ≡ true
    → str_eq bad "" ≡ false
    → env.paystack_verify bad body ≡ false
    → env.paystack_verify good body ≡ true
    → (paystack_deposit env bad body payload w ≡ bad_signature w)
      × (paystack_deposit env "" body payload w ≡ paystack_deposit env good body payload w)
unfolding paystack_deposit
paystack_deposit_signature env bad good body payload w paystack there wrong right =
    let believed : (not (str_eq good "") && not (env.paystack_verify good body)) ≡ false =
      ground arith in
    (rw (paystack, there, wrong) refl, rw (paystack, believed) refl)
