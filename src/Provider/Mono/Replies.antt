-- ===== src/Provider/Mono/Replies.antt =====
-- What the clients of Mono make of a reply.
use weave_server.Prelude.{◌≡◌, refl, String, some, true, leb}
use weave_server.Provider.Transport.{
  HttpRequest, Reply, Transport, failed, PaymentRequest, ClientError,
}
use weave_server.Provider.Transport.ClientError.{api_error}
use weave_server.Provider.Mono.{
  Client, Json, parse_response, decoded, full_message, generate_connect_url, exchange_code,
  get_customer_accounts, sync_account, get_balance, payment_initiate,
}

-- What is said of the code: the message, the error or the whole body; or the message alone.
abbrev pub long_error : Json → Reply → ClientError
long_error json reply = api_error reply.status_code (full_message json.api_error reply.body)

abbrev pub short_error : Json → Reply → ClientError
short_error json reply = api_error reply.status_code (json.api_error reply.body).message

-- Where Mono answers every request with a status code from 400 on, and whatever the body: five methods
-- fail with that code and what the body says of it, but SyncAccount takes the body as it takes one
-- under the code 200.
pub mono_errors :
    (json : Json) (send ok_send : Transport) (c : Client) (reply : Reply)
    → leb 400 reply.status_code ≡ true
    → ((r : HttpRequest) → send r ≡ some reply)
    → ((r : HttpRequest) → ok_send r ≡ some (record reply { status_code = 200 }))
    → (id name email url : String) (req : PaymentRequest)
    → (generate_connect_url json send c id name email url ≡ failed (long_error json reply))
      × (get_balance json send c id ≡ failed (long_error json reply))
      × (payment_initiate json send c req ≡ failed (long_error json reply))
      × (exchange_code json send c id ≡ failed (short_error json reply))
      × (get_customer_accounts json send c id ≡ failed (short_error json reply))
      × (sync_account json send c id ≡ sync_account json ok_send c id)
unfolding generate_connect_url get_balance payment_initiate exchange_code get_customer_accounts
    sync_account parse_response decoded
mono_errors json send ok_send c reply bad sends oks id name email url req = (
  rw (sends, bad) refl,
  rw (sends, bad) refl,
  rw (sends, bad) refl,
  rw (sends, bad) refl,
  rw (sends, bad) refl,
  rw (sends, oks) refl,
)
