-- ===== src/Chat/Messages.antt =====
-- internal/handler/chat.go: the four routes of the chat.
pub mod Turns
pub mod Clear
pub mod Answers
use weave_server.Prelude.{
  ◌≡◌, ℕ, String, Bool, true, false, not, Option, none, some, List, [], ◌∷◌, any, str_eq,
  if◌then◌else◌,
}
use weave_server.Prelude.Int.{ℤ, pos, ltb_ℤ}
use weave_server.Model.{Uuid}
use weave_server.Db.{
  World, M, Result, ok, err, Error, pure, attempt, on_result, on_option, ◌>>=◌, ◌>>◌, cache_del,
}
use weave_server.Http.{reply, messages, status}
use weave_server.Provider.{Env}
use weave_server.Repository.BankAccountRepo
use weave_server.Repository.ChatMessageRepo
use weave_server.Handler.Response.{
  Action, respond_json, respond_error, handle, decode, on_user, refuse_if,
}
use weave_server.Chat.Pending.{Codec}
use weave_server.Chat.Answers.{ToolAnswer, wallet_balance, Directory}
use weave_server.Chat.Tools.{tool_cancel_action}
use weave_server.Chat.Banks.{banks_read, tool_get_linked_banks}
use weave_server.Chat.Reads.{tool_get_wallet_balance}
use weave_server.Chat.Dispatch.{shortcut_confirm}
use weave_server.Chat.Agent.{
  AgentMessage, AgentEnd, answered, gave_up, call_failed, empty_choices, Message, Choice, run_agent,
}
use weave_server.Chat.History.{
  HistoryCodec, history_key, load_history, save_history, persist_pair, append_pair,
}
use weave_server.Chat.Toolbox.{ArgsReader, run_tool}
use weave_server.Chat.Wording.{Format, help_text, balance_text, banks_text, confirm_text}
use weave_server.Chat.Prompt.{build_agent_prompt}

-- What the chat takes from outside: JSON, texts, and the language model with how its tools' answers
-- are encoded. The client of the model is there or nil.
pub record Assistant : Type 0 where
  pub codec : Codec
  pub history_codec : HistoryCodec
  pub directory : Directory
  pub reader : ArgsReader
  pub fmt : Format
  pub has_llm : Bool
  pub ask : ℕ → List AgentMessage → Option (List Choice)
  pub answer_json : Result ToolAnswer → String

pub data Keyword : Type 0 where
  help balance banks yes_word no_word : Keyword

abbrev pub one_of : String → List String → Bool
one_of text words = any (λ x. str_eq x text) words

-- The switch of `tryKeywordShortcut`, on a text in lower case.
abbrev pub keyword : String → Option Keyword
keyword text =
    if one_of text ("help" ∷ "?" ∷ "commands" ∷ [])
    then some Keyword.help
    else if one_of text
        ("balance" ∷ "my balance" ∷ "check balance" ∷ "wallet" ∷ "wallet balance" ∷ [])
    then some Keyword.balance
    else if one_of text ("banks" ∷ "my banks" ∷ "linked banks" ∷ "accounts" ∷ "my accounts" ∷ [])
    then some Keyword.banks
    else if one_of text (
        "yes" ∷ "confirm" ∷ "ok" ∷ "okay" ∷ "proceed" ∷ "go ahead" ∷ "do it" ∷ "sure" ∷ "yep" ∷ "yh"
        ∷ "yeah" ∷ "alright" ∷ [])
    then some Keyword.yes_word
    else if one_of text ("no" ∷ "cancel" ∷ "stop" ∷ "abort" ∷ "nevermind" ∷ "nope" ∷ "don't" ∷ [])
    then some Keyword.no_word
    else none

-- From the answer of `toolGetWalletBalance` on.
unfoldable pub with_balance : Assistant → Uuid → ToolAnswer → M String
with_balance a user_id (wallet_balance w) = do
  owned ← attempt (BankAccountRepo.get_by_user_id user_id 10 0)
  pure (balance_text a.fmt w (banks_read owned))
with_balance a user_id _ = pure "Sorry, I couldn't fetch your balance right now."

-- `directBalance`
unfoldable pub direct_balance : Assistant → Uuid → M String
direct_balance a user_id = do found ← tool_get_wallet_balance user_id; with_balance a user_id found

unfoldable pub on_keyword : Env → Assistant → Uuid → Keyword → M String
on_keyword env a user_id Keyword.help = pure help_text
on_keyword env a user_id Keyword.balance = direct_balance a user_id
on_keyword env a user_id Keyword.banks = do
  found ← tool_get_linked_banks user_id
  pure (banks_text a.fmt found)
on_keyword env a user_id Keyword.yes_word = do
  said ← shortcut_confirm env a.codec user_id
  pure (confirm_text a.fmt said)
on_keyword env a user_id Keyword.no_word = do
  tool_cancel_action env user_id
  pure "Cancelled. Let me know if you'd like to do something else."

-- The text that a run of the agent ends with; none is an error.
abbrev pub end_text : AgentEnd → Option String
end_text (answered text) = some text
end_text gave_up =
    some "I wasn't able to complete your request after several attempts. Please try again."
end_text call_failed = none
end_text empty_choices = none

-- A tool, as `RunAgent` calls it.
abbrev pub execute : Env → Assistant → Uuid → (name arguments : String) → World → String × World
execute env a user_id name args w =
    let (answer, v) = run_tool env a.codec a.directory a.reader user_id name args w in
    (a.answer_json answer, v)

-- The agent, with the prompt and the history.
unfoldable pub ask_agent :
    Env → Assistant → Uuid → List Message → (prompt msg : String) → M (Option String)
ask_agent env a user_id history prompt msg w =
    let (end, thread, v) = run_agent a.ask (execute env a user_id) prompt history msg w in
    (ok (end_text end), v)

-- An answer is recorded, and kept for the next turn.
unfoldable pub finish_turn :
    Env → Assistant → Uuid → List Message → (msg answer : String) → M String
finish_turn env a user_id history msg answer = do
  persist_pair user_id msg answer false
  save_history env a.history_codec user_id (append_pair history msg answer)
  pure answer

-- The agent's error is recorded, and is not kept in Redis.
unfoldable pub after_agent :
    Env → Assistant → Uuid → List Message → String → Option String → M String
after_agent env a user_id history msg (some answer) = finish_turn env a user_id history msg answer
after_agent env a user_id history msg none = do
  persist_pair user_id msg "Sorry, something went wrong. Please try again." true
  pure "Sorry, something went wrong. Please try again."

unfoldable pub by_agent : Env → Assistant → Uuid → List Message → String → M String
by_agent env a user_id history msg = do
  prompt ← build_agent_prompt env a.codec a.fmt user_id
  answer ← ask_agent env a user_id history prompt msg
  after_agent env a user_id history msg answer

-- The turn of a message: by a keyword, or by the agent.
unfoldable pub handle_turn : Env → Assistant → Uuid → String → M String
handle_turn env a user_id msg = do
  history ← load_history env a.history_codec user_id
  on_option (keyword (a.directory.lower msg)) (by_agent env a user_id history msg)
      (λ k. do answer ← on_keyword env a user_id k; finish_turn env a user_id history msg answer)

-- `HandleMessage`
unfoldable pub handle_message : Env → Assistant → Option Uuid → Option String → Action
handle_message env a user body = on_user user (λ user_id.
    decode body "invalid_request_body" (λ text.
      let msg = a.fmt.trim_space text in
      refuse_if (str_eq msg "") 400 "empty_message" (
        if a.has_llm
        then handle (handle_turn env a user_id msg) (λ e. respond_error 500 "internal_error")
            (λ answer. respond_json 200 (reply answer))
        else respond_json 200 (reply "AI assistant is not configured."))))

-- `ConfirmTransfer`
unfoldable pub confirm_transfer : Env → Assistant → Option Uuid → Action
confirm_transfer env a user = on_user user (λ user_id.
    handle (shortcut_confirm env a.codec user_id) (λ e. respond_error 500 "internal_error")
      (λ said. respond_json 200 (reply (confirm_text a.fmt said))))

-- The `limit` of a query: from 1 on, or 100.
abbrev pub limit_of : Format → String → ℤ
limit_of fmt text = if str_eq text "" then pos 100 else elim (fmt.scan_number text) [
  | none ↦ pos 100
  | some n ↦ if ltb_ℤ n (pos 1) then pos 100 else n
]

-- `GetHistory`
unfoldable pub get_history : Assistant → Option Uuid → (limit : String) → Action
get_history a user limit = on_user user (λ user_id.
    handle (ChatMessageRepo.list_by_user_id user_id (limit_of a.fmt limit) 0)
      (λ e. respond_error 500 "failed_to_load_history") (λ rows. respond_json 200 (messages rows)))

unfoldable pub forget : Env → Uuid → M (Unit {0})
forget env user_id = if env.has_redis then cache_del (history_key env user_id) else pure tt

-- `ClearHistory`
unfoldable pub clear_history : Env → Option Uuid → Action
clear_history env user = on_user user (λ user_id.
    handle (ChatMessageRepo.delete_by_user_id user_id)
      (λ e. respond_error 500 "failed_to_clear_history")
      (λ _.
        handle (forget env user_id) (λ e. respond_error 500 "internal_error")
          (λ _. respond_json 200 (status "cleared"))))
