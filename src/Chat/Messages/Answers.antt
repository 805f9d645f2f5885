-- ===== src/Chat/Messages/Answers.antt =====
-- A message is always answered.
use weave_server.Handler.Response.{Action, finish, handle, respond_json, respond_error}
use weave_server.Prelude.{true, false}
use weave_server.Prelude.{
  ◌≡◌, if◌then◌else◌, refl, String, ℕ, Option, none, some, List, [], ◌∷◌, Bool,
}
use weave_server.Model.{Uuid, ChatMessage}
use weave_server.Db.Returns.{is_ok, Returns, returns_rules}
use weave_server.Http.{reply, Outcome, answered, panicked, crashed}
use weave_server.Provider.{Env}
use weave_server.Chat.Pending.{Codec, PendingAction, transfer, unlink, load_pending, clear_pending}
use weave_server.Chat.Answers.{ToolAnswer}
use weave_server.Chat.Tools.{confirm, tool_confirm_transfer, tool_cancel_action}
use weave_server.Chat.Banks.{confirm_removal, tool_confirm_unlink, tool_get_linked_banks}
use weave_server.Chat.Reads.{tool_get_wallet_balance}
use weave_server.Chat.Dispatch.{confirm_action, shortcut_confirm}
use weave_server.Chat.Agent.{Message}
use weave_server.Chat.History.{
  HistoryCodec, load_history, warm_history, warm_up, save_history, persist_pair,
}
use weave_server.Chat.Prompt.{build_agent_prompt}
use weave_server.Chat.Messages.{
  err, ok, handle, str_eq, World, handle_message, Result, Assistant, Keyword, with_balance,
  direct_balance, on_keyword, ask_agent, finish_turn, after_agent, by_agent, handle_turn,
}

load_pending-Returns : (env : Env) (codec : Codec) (u : Uuid) → Returns (load_pending env codec u)
unfolding load_pending
load_pending-Returns env codec u = search returns_rules depth 8

clear_pending-Returns : (env : Env) (u : Uuid) → Returns (clear_pending env u)
unfolding clear_pending
clear_pending-Returns env u = search returns_rules depth 8

ruleset pending_rules = (returns_rules, load_pending-Returns, clear_pending-Returns)

confirm-Returns : (env : Env) (u : Uuid) (a : PendingAction) → Returns (confirm env u a)
unfolding confirm
confirm-Returns env u (transfer t) = search pending_rules depth 10
confirm-Returns env u (unlink t) = search pending_rules depth 10

removal-Returns : (env : Env) (u : Uuid) (a : PendingAction) → Returns (confirm_removal env u a)
unfolding confirm_removal
removal-Returns env u (transfer t) = search pending_rules depth 10
removal-Returns env u (unlink t) = search pending_rules depth 10

action-Returns :
    (env : Env) (codec : Codec) (u : Uuid) (a : PendingAction)
    → Returns (confirm_action env codec u a)
unfolding confirm_action tool_confirm_transfer tool_confirm_unlink
action-Returns env codec u (transfer t) = search (pending_rules, confirm-Returns) depth 10
action-Returns env codec u (unlink t) = search (pending_rules, removal-Returns) depth 10

shortcut-Returns : (env : Env) (codec : Codec) (u : Uuid) → Returns (shortcut_confirm env codec u)
unfolding shortcut_confirm
shortcut-Returns env codec u = search (pending_rules, action-Returns) depth 10

wallet_balance-Returns : (u : Uuid) → Returns (tool_get_wallet_balance u)
unfolding tool_get_wallet_balance
wallet_balance-Returns u = search returns_rules depth 8

linked_banks-Returns : (u : Uuid) → Returns (tool_get_linked_banks u)
unfolding tool_get_linked_banks
linked_banks-Returns u = search returns_rules depth 8

with_balance-Returns :
    (a : Assistant) (u : Uuid) (answer : ToolAnswer) → Returns (with_balance a u answer)
unfolding with_balance
with_balance-Returns a u (ToolAnswer.wallet_balance w) = search returns_rules depth 8
with_balance-Returns a u _ = search returns_rules

save_history-Returns :
    (env : Env) (codec : HistoryCodec) (u : Uuid) (msgs : List Message)
    → Returns (save_history env codec u msgs)
unfolding save_history
save_history-Returns env codec u msgs = search returns_rules

warm_up-Returns :
    (env : Env) (codec : HistoryCodec) (u : Uuid) (rows : List ChatMessage)
    → Returns (warm_up env codec u rows)
unfolding warm_up
warm_up-Returns env codec u [] = search returns_rules
warm_up-Returns env codec u (row ∷ rows) = search (returns_rules, save_history-Returns)

load_history-Returns :
    (env : Env) (codec : HistoryCodec) (u : Uuid) → Returns (load_history env codec u)
unfolding load_history warm_history
load_history-Returns env codec u = search (returns_rules, warm_up-Returns) depth 10

on_keyword-Returns :
    (env : Env) (a : Assistant) (u : Uuid) (k : Keyword) → Returns (on_keyword env a u k)
unfolding on_keyword direct_balance tool_cancel_action
on_keyword-Returns env a u Keyword.help = search returns_rules
on_keyword-Returns env a u Keyword.balance =
    search (returns_rules, wallet_balance-Returns, with_balance-Returns)
on_keyword-Returns env a u Keyword.banks = search (returns_rules, linked_banks-Returns)
on_keyword-Returns env a u Keyword.yes_word = search (returns_rules, shortcut-Returns)
on_keyword-Returns env a u Keyword.no_word = search pending_rules

persist_pair-Returns : (u : Uuid) (x y : String) (b : Bool) → Returns (persist_pair u x y b)
unfolding persist_pair
persist_pair-Returns u x y b = search returns_rules

ruleset turn_rules = (returns_rules, persist_pair-Returns, save_history-Returns)

finish_turn-Returns :
    (env : Env) (a : Assistant) (u : Uuid) (history : List Message) (msg answer : String)
    → Returns (finish_turn env a u history msg answer)
unfolding finish_turn
finish_turn-Returns env a u history msg answer = search turn_rules

after_agent-Returns :
    (env : Env) (a : Assistant) (u : Uuid) (history : List Message) (msg : String)
    (o : Option String)
    → Returns (after_agent env a u history msg o)
unfolding after_agent
after_agent-Returns env a u history msg none = search turn_rules
after_agent-Returns env a u history msg (some answer) = search finish_turn-Returns

ask_agent-Returns :
    (env : Env) (a : Assistant) (u : Uuid) (history : List Message) (prompt msg : String)
    → Returns (ask_agent env a u history prompt msg)
unfolding ask_agent
ask_agent-Returns env a u history prompt msg = record { at = λ w. refl }

prompt-Returns :
    (env : Env) (a : Assistant) (u : Uuid) → Returns (build_agent_prompt env a.codec a.fmt u)
unfolding build_agent_prompt
prompt-Returns env a u = search pending_rules depth 10

by_agent-Returns :
    (env : Env) (a : Assistant) (u : Uuid) (history : List Message) (msg : String)
    → Returns (by_agent env a u history msg)
unfolding by_agent
by_agent-Returns env a u history msg =
    search (returns_rules, prompt-Returns, ask_agent-Returns, after_agent-Returns) depth 8

handle_turn-Returns :
    (env : Env) (a : Assistant) (u : Uuid) (msg : String) → Returns (handle_turn env a u msg)
unfolding handle_turn
handle_turn-Returns env a u msg =
    search
      (
        returns_rules, load_history-Returns, by_agent-Returns, on_keyword-Returns,
        finish_turn-Returns,
      )
      depth 8

abbrev pub code_of : Outcome → ℕ
code_of (answered resp) = resp.code
code_of panicked = 0
code_of crashed = 0

answered_200 :
    (r : Result String) (v : World)
    → is_ok r ≡ true
    → code_of
        (finish r
          (λ e. respond_error 500 "internal_error")
          (λ answer. respond_json 200 (reply answer))
          v).0
      ≡ 200
answered_200 (ok answer) v h = refl
answered_200 (err e) v h = cc

turn_or_notice :
    (env : Env) (a : Assistant) (u : Uuid) (msg : String) (b : Bool) (w : World)
    → code_of
        (let f : Action =
            if b
            then handle
                (handle_turn env a u msg)
                (λ e. respond_error 500 "internal_error")
                (λ answer. respond_json 200 (reply answer))
            else respond_json 200 (reply "AI assistant is not configured.") in
          f w).0
      ≡ 200
turn_or_notice env a u msg true w =
    let (r, v) = handle_turn env a u msg w in
    answered_200 r v ((handle_turn-Returns env a u msg).at w)
turn_or_notice env a u msg false w = refl

-- HandleMessage answers every message of a user that is not blank with the status 200, in every world:
-- whatever the model says and its tools do, whatever waits for a confirmation, also where no statement
-- reaches the database.
pub handle_message_answers :
    (env : Env) (a : Assistant) (u : Uuid) (text : String) (w : World)
    → str_eq (a.fmt.trim_space text) "" ≡ false
    → code_of (handle_message env a (some u) (some text) w).0 ≡ 200
unfolding handle_message
handle_message_answers env a u text w said =
    rw said (turn_or_notice env a u (a.fmt.trim_space text) a.has_llm w)
