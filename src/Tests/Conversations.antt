-- ===== src/Tests/Conversations.antt =====
-- The theorems on conversations, at the example's user.
use weave_server.Prelude.{◌≡◌, refl, true, false, none, some, List, [], ◌∷◌, arith}
use weave_server.Prelude.Int.{pos}
use weave_server.Db.{ok, ◌>>◌}
use weave_server.Db.Redis.{after}
use weave_server.Http.{answered, respond, status}
use weave_server.Repository.ChatMessageRepo.{of_user}
use weave_server.Chat.Agent.{Message}
use weave_server.Chat.Toolbox.{ArgsReader}
use weave_server.Chat.Wording.{Format}
use weave_server.Chat.History.{HistoryCodec, load_history, persist_pair, append_pair, trimmed}
use weave_server.Chat.History.Recent.{window, persist_pair-window}
use weave_server.Chat.Messages.{
  Assistant, Keyword, on_keyword, finish_turn, handle_message, clear_history,
}
use weave_server.Chat.Messages.Turns.{finish_turn-load_history, no-yes}
use weave_server.Chat.Messages.Answers.{handle_message_answers, code_of}
use weave_server.Chat.Messages.Clear.{clear_history_forgets, cleared}
use weave_server.Chat.Confirm.{settled}
use weave_server.Tests.{env, world}
use weave_server.Tests.Chats.{codec, directory}

abbrev reader : ArgsReader
reader = record {
  history_limit = λ text. pos 5;
  history_status = λ text. "";
  deposits_limit = λ text. pos 5;
  reference = λ text. none;
  account_and_bank = λ text. none;
  transfer = λ text. none;
  identifier_or_empty = λ text. "";
  identifier = λ text. none;
  priority = λ text. none;
  fund = λ text. none;
}

abbrev fmt : Format
fmt = record {
  naira = λ amount. "0.00";
  number = λ n. "1";
  trim_space = λ text. text;
  scan_number = λ text. none;
  instructions = "You are Weave";
}

abbrev pair : List Message
pair = append_pair [] "hello" "Hi!"

abbrev history_codec : HistoryCodec
history_codec = record { encode = λ msgs. "pair"; decode = λ text. some pair }

-- The model greets.
abbrev pub assistant : Assistant
assistant = record {
  codec = codec;
  history_codec = history_codec;
  directory = directory;
  reader = reader;
  fmt = fmt;
  has_llm = true;
  ask = λ n msgs. some (record { content = "Hi!"; tool_calls = [] } ∷ []);
  answer_json = λ answer. "{}";
}

handle_message_answers_example :
    code_of
      (handle_message env assistant
        (some 1)
        (some "hello")
        (record world { faults = true ∷ true ∷ [] })).0
    ≡ 200
handle_message_answers_example =
    handle_message_answers env assistant 1 "hello" (record world { faults = true ∷ true ∷ [] }) refl

finish_turn-load_history_example :
    let (result, v) = finish_turn env assistant 1 [] "hello" "Hi!" world in
    (result ≡ ok "Hi!")
    × (load_history env history_codec 1 (after 60 v) ≡ (ok (window 1 v), after 60 v))
finish_turn-load_history_example =
    finish_turn-load_history env assistant 1 "hello" "Hi!" 60 world (refl, refl) refl refl tt refl
      (omega arith)

persist_pair-window_example :
    trimmed (append_pair [] "hello" "Hi!") ≡ window 1 (persist_pair 1 "hello" "Hi!" false world).1
persist_pair-window_example = persist_pair-window 1 "hello" "Hi!" false world (refl, refl) refl tt

no-yes_example :
    (on_keyword env assistant 1 Keyword.no_word >> on_keyword env assistant 1 Keyword.yes_word)
      world
    ≡ (
      ok
          "No pending action to confirm. Start a new transfer by saying \"send 5000 to 0123456789\".",
      settled env 1 world,
    )
no-yes_example = no-yes env assistant 1 world refl

clear_history_forgets_example :
    (clear_history env (some 1) world
      ≡ (answered (respond 200 (status "cleared")), cleared env 1 world))
    × (of_user 1 (cleared env 1 world).tables ≡ [])
    × (load_history env history_codec 1 (cleared env 1 world) ≡ (ok [], cleared env 1 world))
    × (of_user 2 (cleared env 1 world).tables ≡ of_user 2 world.tables)
clear_history_forgets_example =
    clear_history_forgets env history_codec 1 2 world (refl, refl) refl refl
