-- ===== src/Tests/Clients.antt =====
-- The theorems on the clients of the providers: every reply is the same, and is read as a success.
use weave_server.Prelude.{str_eq, if◌then◌else◌, true, none, some}
use weave_server.Prelude.Int.{pos}
use weave_server.Provider.Transport.{Reply}
use weave_server.Provider.Mono
use weave_server.Provider.Clients.{Clients}
use weave_server.Service.PayoutService.Backed.{Backed}

-- An error of Mono, by its status code.
abbrev bad_gateway : Reply
bad_gateway = record { status_code = 502; body = "{}" }

-- What json reads of a body without fields: zero values.
abbrev no_account : Mono.Envelope Mono.AccountData
no_account = record {
  status = "";
  message = "";
  content = record {
    id = "";
    account_number = "";
    account_name = "";
    bank_name = "";
    bank_code = "";
    balance = pos 0;
    currency = "";
  };
}

abbrev exchanged : Mono.Envelope Mono.ExchangeData
exchanged = record { status = "successful"; message = ""; content = record { id = "acc" } }

abbrev clients : Clients
clients = record {
  paystack = record { secret_key = "sk" };
  mono = record { secret_key = "mk" };
  paystack_json = record {
    customer = λ body. none;
    dva = λ body. none;
    transfer = λ body. some (record {
      status = true;
      message = "";
      content = record { reference = "TRF"; amount = pos 500; status = "pending" };
    });
    recipient = λ body. some (record {
      status = true;
      message = "";
      content = record { recipient_code = "RCP"; active = true };
    });
    balance = λ body. none;
    banks = λ body. none;
    resolved = λ body. none;
  };
  mono_json = record {
    connect = λ body. none;
    exchange = λ body. some exchanged;
    customer_accounts = λ body. none;
    account = λ body. some no_account;
    balance = λ body. none;
    payment = λ body. none;
    api_error = λ body. record { message = ""; error = "" };
  };
  send = λ n r. some (record { status_code = 200; body = "{}" });
  -- the exchange of a code succeeds, and nothing else
  look = λ r.
      if str_eq r.url "https://api.withmono.com/v2/accounts/auth"
      then some (record { status_code = 200; body = "{}" })
      else some bad_gateway;
  hmac_sha256 = λ key body. body;
  hmac_sha512 = λ key body. body;
}
