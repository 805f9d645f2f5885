-- ===== src/Provider/Paystack/Replies.antt =====
-- What the clients of Paystack make of a reply.
use weave_server.Prelude.{◌≡◌, refl, String, Option, none, some}
use weave_server.Provider.{CreateCustomerRequest}
use weave_server.Provider.Transport.{
  HttpRequest, Reply, Transport, Reader, Answer, TransferRequest, CreateRecipientRequest,
}
use weave_server.Provider.Paystack.{
  Client, Json, decoded, create_customer, assign_dva, initiate_transfer, create_transfer_recipient,
  get_balance, list_banks, resolve_account,
}

abbrev pub body_of : Option Reply → Option String
body_of none = none
body_of (some reply) = some reply.body

-- The replies to each request differ in their status codes at most.
abbrev pub SameBodies : Transport → Transport → Type 0
SameBodies send send' = (r : HttpRequest) → body_of (send r) ≡ body_of (send' r)

read_body : {A : Type 0} → Reader A → Option String → Answer A
read_body reads none = decoded reads none
read_body reads (some text) = decoded reads (some (record { status_code = 200; body = text }))

decoded-body_of :
    {A : Type 0} (reads : Reader A) (o : Option Reply)
    → decoded reads o ≡ read_body reads (body_of o)
unfolding read_body decoded
decoded-body_of reads none = refl
decoded-body_of reads (some reply) = refl

module _ (json : Json) (send send' : Transport) (c : Client) (same : SameBodies send send') where
  same_decoded :
      {A : Type 0} (reads : Reader A) (r : HttpRequest)
      → decoded reads (send r) ≡ decoded reads (send' r)
  same_decoded reads r =
      rw (decoded-body_of reads (send r), decoded-body_of reads (send' r), same r) refl

  -- Where the replies differ in their status codes at most, CreateCustomer, AssignDVA, InitiateTransfer,
  -- CreateTransferRecipient, GetBalance, ListBanks and ResolveAccount come to the same answers: a body
  -- that says that it is done is believed under any status code.
  pub paystack_status_codes :
      (customer : CreateCustomerRequest) (code bank : String) (req : TransferRequest)
      (recipient : CreateRecipientRequest) (account : String)
      → (create_customer json send c customer ≡ create_customer json send' c customer)
        × (assign_dva json send c code bank ≡ assign_dva json send' c code bank)
        × (initiate_transfer json send c req ≡ initiate_transfer json send' c req)
        × (create_transfer_recipient json send c recipient
            ≡ create_transfer_recipient json send' c recipient)
        × (get_balance json send c ≡ get_balance json send' c)
        × (list_banks json send c ≡ list_banks json send' c)
        × (resolve_account json send c account bank ≡ resolve_account json send' c account bank)
  unfolding create_customer assign_dva initiate_transfer create_transfer_recipient get_balance
      list_banks resolve_account
  paystack_status_codes customer code bank req recipient account = (
    rw (same_decoded json.customer _) refl,
    rw (same_decoded json.dva _) refl,
    rw (same_decoded json.transfer _) refl,
    rw (same_decoded json.recipient _) refl,
    rw (same_decoded json.balance _) refl,
    rw (same_decoded json.banks _) refl,
    rw (same_decoded json.resolved _) refl,
  )
