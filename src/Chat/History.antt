-- ===== src/Chat/History.antt =====
-- internal/handler/chat_support.go and chat.go: the history of a conversation. PostgreSQL keeps all of
-- it, Redis the last 20 messages for 2 hours.
pub mod Recent
use Prim.Native.String.{◌++◌ as append}
use weave_server.Prelude.{
  ℕ, ◌-◌, String, Bool, false, Option, none, some, List, [], ◌∷◌, ◌++◌, map, length, drop, ltb,
  if◌then◌else◌,
}
use weave_server.Prelude.Int.{ℤ, pos}
use weave_server.Model.{Uuid, ChatMessage}
use weave_server.Db.{
  M, pure, ◌>>=◌, ◌>>◌, attempt, ignore, on_option, on_result, cache_get, cache_set,
}
use weave_server.Provider.{Env}
use weave_server.Chat.Agent.{Message}
use weave_server.Repository.ChatMessageRepo

-- `json.Marshal` and `json.Unmarshal` on messages; none is a text that cannot be read.
pub record HistoryCodec : Type 0 where
  pub encode : List Message → String
  pub decode : String → Option (List Message)

-- `historyKey`
abbrev pub history_key : Env → Uuid → String
history_key env user_id = append "chat:history:" (env.uuid_string user_id)

abbrev pub max_history_messages : ℕ
max_history_messages = 20

-- `msgs[len(msgs)-maxHistoryMessages:]`
abbrev pub trimmed : List Message → List Message
trimmed msgs =
    if ltb max_history_messages (length msgs)
    then drop (length msgs - max_history_messages) msgs
    else msgs

-- `saveHistory`
unfoldable pub save_history : Env → HistoryCodec → Uuid → List Message → M (Unit {0})
save_history env codec user_id msgs =
    if env.has_redis
    then cache_set (history_key env user_id) (codec.encode (trimmed msgs)) 7200
    else pure tt

-- Messages that are there.
abbrev pub some_messages : Option (List Message) → Option (List Message)
some_messages none = none
some_messages (some []) = none
some_messages (some (m ∷ ms)) = some (m ∷ ms)

abbrev pub read_messages : HistoryCodec → Option String → Option (List Message)
read_messages codec none = none
read_messages codec (some text) = some_messages (codec.decode text)

unfoldable pub warm_history : Env → HistoryCodec → Uuid → M (Option (List Message))
warm_history env codec user_id =
    if env.has_redis
    then (do raw ← cache_get (history_key env user_id); pure (read_messages codec raw))
    else pure none

abbrev pub message_of : ChatMessage → Message
message_of row = record { role = row.role; content = row.content }

-- From the rows on; without rows nothing is saved.
unfoldable pub warm_up : Env → HistoryCodec → Uuid → List ChatMessage → M (List Message)
warm_up env codec user_id [] = pure []
warm_up env codec user_id (row ∷ rows) = do
  save_history env codec user_id (map message_of (row ∷ rows))
  pure (map message_of (row ∷ rows))

-- `loadHistory`
unfoldable pub load_history : Env → HistoryCodec → Uuid → M (List Message)
load_history env codec user_id = do
  warm ← warm_history env codec user_id
  on_option warm
      (do
        rows ← attempt (ChatMessageRepo.recent_as_llm_messages user_id max_history_messages)
        on_result rows (λ e. pure []) (λ rs. warm_up env codec user_id rs))
      (λ msgs. pure msgs)

-- `appendPair`
abbrev pub append_pair : List Message → (user assistant : String) → List Message
append_pair history user assistant =
    history
    ++ record { role = "user"; content = user }
      ∷ record { role = "assistant"; content = assistant }
      ∷ []

-- `persistPair`
unfoldable pub persist_pair : Uuid → (user assistant : String) → (is_error : Bool) → M (Unit {0})
persist_pair user_id user assistant is_error = do
  ignore (ChatMessageRepo.create user_id "user" user false)
  ignore (ChatMessageRepo.create user_id "assistant" assistant is_error)
