-- ===== src/Service/PayoutService/Backed.antt =====
-- A payout over the client of Paystack: what stands behind a payout that succeeded.
use weave_server.Prelude.{◌≡◌, ℕ, String, some, true, ◌∷◌}
use weave_server.Model.{Amount}
use weave_server.Db.{World, Result, ok, err, payout}
use weave_server.Provider.{PayoutRequest}
use weave_server.Provider.Transport.{Payload, HttpRequest, Reply}
use weave_server.Provider.Paystack
use weave_server.Provider.Clients.{Clients, payout_transfer}

-- The POST for a transfer.
abbrev pub transfer_request : Clients → PayoutRequest → HttpRequest
transfer_request c req =
    Paystack.post_request c.paystack "/transfer" (Payload.transfer (payout_transfer req))

-- Paystack has answered a POST for this transfer: the body is read, says that it is done, and names
-- the reference.
pub record Accepted (c : Clients) (req : PayoutRequest) (provider_ref : String) : Type 0 where
  pub call : ℕ
  pub reply : Reply
  pub sent : c.send call (transfer_request c req) ≡ some reply
  pub response : Paystack.Envelope Paystack.TransferData
  pub read : c.paystack_json.transfer reply.body ≡ some response
  pub done : response.status ≡ true
  pub named : response.content.reference ≡ provider_ref

-- A payout of that amount under that reference: it is recorded and accepted, or it is neither.
abbrev pub Backed : Clients → String → Amount → World → Result String × World → Type 0
Backed c our_ref amount w (ok provider_ref, v) =
    ((code : String) × Accepted c
        (record { amount = amount; recipient = code; reference = our_ref }) provider_ref)
    × (v.effects ≡ payout our_ref amount ∷ w.effects)
Backed c our_ref amount w (err e, v) = v.effects ≡ w.effects
