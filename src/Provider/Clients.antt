-- ===== src/Provider/Clients.antt =====
-- The answers of the providers, as the clients of internal/provider give them over a transport: what
-- internal/service and internal/handler send, and what they take of a response.
use Prim.Native.String.{◌++◌ as append}
use weave_server.Prelude.{ℕ, String, map}
use weave_server.Provider.{
  Env, PaymentInitiateRequest, PaymentInitiated, PayoutRequest, AssignedAccount, ConnectUrl,
  MonoAccount,
}
use weave_server.Provider.Transport.{
  PaymentRequest, TransferRequest, CreateRecipientRequest, Transport, value_of,
}
use weave_server.Chat.Answers.{Directory, PaystackBank}
use weave_server.Provider.Paystack
use weave_server.Provider.Mono

-- The two clients, the transport, by how many counted calls came before, what answers the calls that
-- are not counted, and the digits of crypto/hmac.
pub record Clients : Type 0 where
  pub paystack : Paystack.Client
  pub mono : Mono.Client
  pub paystack_json : Paystack.Json
  pub mono_json : Mono.Json
  pub send : ℕ → Transport
  pub look : Transport
  pub hmac_sha256 : (key body : String) → String
  pub hmac_sha512 : (key body : String) → String

-- The payment that `settleLegs` and `FundFromBank` ask Mono for.
unfoldable pub direct_pay : PaymentInitiateRequest → PaymentRequest
direct_pay req = record {
  amount = req.amount;
  type_ = "onetime-debit";
  description = req.description;
  reference = req.reference;
  redirect_url = "http://localhost:3000/app/accounts";
  method = "account";
  customer_name = req.customer_name;
  customer_email = req.customer_email;
}

-- The transfer that `SendPayout` asks Paystack for.
unfoldable pub payout_transfer : PayoutRequest → TransferRequest
payout_transfer req = record {
  amount = req.amount;
  recipient = req.recipient;
  reference = req.reference;
  reason = "Weave transfer";
}

-- The recipient that `createOrGetRecipient` asks for.
unfoldable pub nuban_recipient : (account bank name : String) → CreateRecipientRequest
nuban_recipient account bank name = record {
  type_ = "nuban";
  name = name;
  account_number = account;
  bank_code = bank;
  currency = "NGN";
}

abbrev pub payment_of : Mono.Envelope Mono.PaymentData → PaymentInitiated
payment_of e = record { id = e.content.id; mono_url = e.content.mono_url }

abbrev pub dva_of : Paystack.Envelope Paystack.DvaData → AssignedAccount
dva_of e = record {
  account_number = e.content.account_number;
  account_name = e.content.account_name;
  bank_name = e.content.bank_name;
}

abbrev pub url_of : Mono.Envelope Mono.ConnectData → ConnectUrl
url_of e = record { mono_url = e.content.mono_url; customer = e.content.customer }

-- An account that `CompleteLink` saves: without a bank code.
abbrev pub listed_account : Mono.CustomerAccount → MonoAccount
listed_account a = record {
  account_number = a.account_number;
  account_name = a.account_name;
  bank_code = "";
  bank_name = a.bank;
  balance = a.balance;
}

abbrev pub synced_account : Mono.Envelope Mono.AccountData → MonoAccount
synced_account e = record {
  account_number = e.content.account_number;
  account_name = e.content.account_name;
  bank_code = e.content.bank_code;
  bank_name = e.content.bank_name;
  balance = e.content.balance;
}

-- The environment whose providers are asked over the transport.
unfoldable pub over : Clients → Env → Env
over c env = record env {
  payment_initiate = λ n req.
      value_of payment_of (Mono.payment_initiate c.mono_json (c.send n) c.mono (direct_pay req));
  mono_balance =
      λ token. value_of (λ e. e.content.balance) (Mono.get_balance c.mono_json c.look c.mono token);
  create_recipient = λ n account bank name.
      value_of (λ e. e.content.recipient_code)
        (Paystack.create_transfer_recipient c.paystack_json (c.send n) c.paystack
          (nuban_recipient account bank name));
  initiate_transfer = λ n req.
      value_of (λ e. e.content.reference)
        (Paystack.initiate_transfer c.paystack_json (c.send n) c.paystack (payout_transfer req));
  mono_verify = Mono.verify_webhook c.hmac_sha512 c.mono;
  paystack_verify = Paystack.verify_webhook c.hmac_sha256 c.paystack;
  create_customer = λ n req.
      value_of (λ e. e.content.customer_code)
        (Paystack.create_customer c.paystack_json (c.send n) c.paystack req);
  assign_dva = λ n customer bank.
      value_of dva_of (Paystack.assign_dva c.paystack_json (c.send n) c.paystack customer bank);
  generate_connect_url = λ n ref name email. value_of url_of (
      Mono.generate_connect_url c.mono_json (c.send n) c.mono ref name email
        (append "http://localhost:3000/app/banks?ref=" ref));
  customer_accounts = λ customer.
      value_of (λ e. map listed_account e.content)
        (Mono.get_customer_accounts c.mono_json c.look c.mono customer);
  exchange_code =
      λ code. value_of (λ e. e.content.id) (Mono.exchange_code c.mono_json c.look c.mono code);
  sync_account = λ id. value_of synced_account (Mono.sync_account c.mono_json c.look c.mono id);
}

abbrev pub bank_of : Paystack.Bank → PaystackBank
bank_of b = record { name = b.name; slug = b.slug; code = b.code }

-- What the tools of the chat look up at Paystack.
unfoldable pub directory_over : Clients → Directory → Directory
directory_over c d = record d {
  banks = λ n. value_of (map bank_of) (Paystack.list_banks c.paystack_json (c.send n) c.paystack);
  resolve = λ n account code.
      value_of (λ e. e.content.account_name)
        (Paystack.resolve_account c.paystack_json (c.send n) c.paystack account code);
}
