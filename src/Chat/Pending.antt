-- ===== src/Chat/Pending.antt =====
-- internal/handler/chat_support.go: what waits for the user to confirm it, kept in Redis for 10
-- minutes, one for each user.
use Prim.Native.String.{◌++◌ as append}
use weave_server.Prelude.{String, Option, none, some, if◌then◌else◌}
use weave_server.Model.{Uuid, Amount}
use weave_server.Db.{M, pure, ◌>>=◌, cache_get, cache_set, cache_del}
use weave_server.Provider.{Env}

pub record PendingTransfer : Type 0 where
  pub amount : Amount
  pub recipient_account : String
  pub recipient_bank : String
  pub recipient_name : String
  pub idempotency_key : String

-- `bank_id` is the text of the UUID.
pub record PendingUnlink : Type 0 where
  pub bank_id : String
  pub bank_name : String
  pub account_number : String

-- The kinds "transfer" and "unlink".
pub data PendingAction : Type 0 where
  transfer : PendingTransfer → PendingAction
  unlink : PendingUnlink → PendingAction

-- `json.Marshal` and `json.Unmarshal` on pending actions; none is a text that cannot be read.
pub record Codec : Type 0 where
  pub encode : PendingAction → String
  pub decode : String → Option PendingAction

abbrev pub pending_key : Env → Uuid → String
pending_key env user_id = append "chat:pending:" (env.uuid_string user_id)

-- `storePending`
unfoldable pub store_pending : Env → Codec → Uuid → PendingAction → M (Unit {0})
store_pending env codec user_id action =
    if env.has_redis then cache_set (pending_key env user_id) (codec.encode action) 600 else pure tt

abbrev pub read_action : Codec → Option String → Option PendingAction
read_action codec none = none
read_action codec (some text) = codec.decode text

-- `loadPending`
unfoldable pub load_pending : Env → Codec → Uuid → M (Option PendingAction)
load_pending env codec user_id =
    if env.has_redis
    then (do raw ← cache_get (pending_key env user_id); pure (read_action codec raw))
    else pure none

-- `clearPending`
unfoldable pub clear_pending : Env → Uuid → M (Unit {0})
clear_pending env user_id = if env.has_redis then cache_del (pending_key env user_id) else pure tt
