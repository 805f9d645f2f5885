-- ===== src/Chat/Confirm.antt =====
-- From a transfer that is proposed in the chat to the one that is confirmed.
use weave_server.Prelude.{◌≡◌, String, ◌+◌, ◌≤◌, true, false, none, some, str_eq}
use weave_server.Model.{Uuid, Transaction}
use weave_server.Db.{World, Result, ok, err, cache_set, cache_del, ◌>>=◌}
use weave_server.Db.Fine.{Fine}
use weave_server.Provider.{Env}
use weave_server.Service.TransferService.{TransferResult, initiate_transfer, replay}
use weave_server.Service.TransferService.Preflight.{made_before, initiate_transfer-replay}
use weave_server.Db.Redis.{cache_del-get}
use weave_server.Chat.Pending.{
  PendingTransfer, Codec, transfer, pending_key, load_pending, clear_pending,
}
use weave_server.Chat.Tools.{
  TransferArgs, proposed, confirmed_request, confirm, tool_confirm_transfer, recipient_name_of,
}
use weave_server.Chat.Answers.{refused, transferred, Directory}

-- A name that was looked for.
abbrev pub name_of : Result String × World → String
name_of (ok name, w) = name
name_of (err e, w) = ""

-- The world with a proposal that waits.
abbrev pub waiting : Env → Codec → Uuid → PendingTransfer → World → World
waiting env codec user_id t w =
    (cache_set (pending_key env user_id) (codec.encode (transfer t)) 600 w).1

-- The world without it.
abbrev pub settled : Env → Uuid → World → World
settled env user_id w = (cache_del (pending_key env user_id) w).1

pub load_settled :
    (env : Env) (codec : Codec) (user_id : Uuid) (w : World)
    → env.has_redis ≡ true
    → load_pending env codec user_id (settled env user_id w) ≡ (ok none, settled env user_id w)
unfolding load_pending ◌>>=◌
load_settled env codec user_id w redis = simp (redis, cache_del-get (pending_key env user_id) w)

-- A world that differs in the number of requests to a provider only, by two at most.
abbrev pub JustAsked : World → World → Type 0
JustAsked w v = (v ≡ record w { called = v.called }) × (v.called ≤ w.called + 2)

-- The transfer that is proposed, with the name that is given or that Paystack knows.
abbrev pub suggested : Env → Directory → Uuid → String → TransferArgs → World → PendingTransfer
suggested env dir user_id text args w =
    proposed env user_id text args (name_of (recipient_name_of env dir args w))

-- With Redis, where a transfer waits and InitiateTransfer succeeds with it: the confirmation answers with its result, and
-- a second confirmation is refused and changes nothing.
pub confirm_once :
    (env : Env) (codec : Codec) (user_id : Uuid) (t : PendingTransfer) (done : TransferResult)
    (w v : World)
    → env.has_redis ≡ true
    → load_pending env codec user_id w ≡ (ok (some (transfer t)), w)
    → initiate_transfer env user_id (confirmed_request t) w ≡ (ok done, v)
    → (tool_confirm_transfer env codec user_id w ≡ (ok (transferred done t), settled env user_id v))
      × (tool_confirm_transfer env codec user_id (settled env user_id v)
          ≡ (ok (refused "no pending transfer found — it may have expired"), settled env user_id v))
unfolding tool_confirm_transfer confirm clear_pending ◌>>=◌ cache_del
confirm_once env codec user_id t done w v redis waits sent =
    (simp (waits, sent, redis), simp (load_settled env codec user_id v redis))

-- On a connection that works, with Redis, where a proposal waits whose key is the key of a transfer
-- that was made before: the confirmation answers with the reference and the status of that
-- transfer, no money moves, and the proposal is gone.
pub confirm_repeated :
    (env : Env) (codec : Codec) (user_id : Uuid) (text : String) (args : TransferArgs)
    (name : String) (txn : Transaction) (w : World)
    → Fine w
    → env.has_redis ≡ true
    → load_pending env codec user_id w
      ≡ (ok (some (transfer (proposed env user_id text args name))), w)
    → str_eq (proposed env user_id text args name).idempotency_key "" ≡ false
    → made_before (proposed env user_id text args name).idempotency_key w.tables ≡ some txn
    → tool_confirm_transfer env codec user_id w
      ≡ (ok (transferred (replay txn) (proposed env user_id text args name)), settled env user_id w)
confirm_repeated env codec user_id text args name txn w fine redis waits there found =
    (confirm_once env codec user_id (proposed env user_id text args name) (replay txn) w w redis
      waits
      (initiate_transfer-replay env user_id
        (confirmed_request (proposed env user_id text args name)) txn w fine there found)).0
