-- ===== src/Chat/Agent.antt =====
-- internal/provider/llm/agent.go: `RunAgent`, the loop that asks a language model and runs the tools
-- that it calls. The fuel of the loop is the code's own limit.
pub mod Turns
use weave_server.Prelude.{
  ℕ, zero, suc, ◌+◌, String, Bool, true, false, Option, none, some, List, [], ◌∷◌, ◌++◌, map,
}
use weave_server.Db.{World}

pub record AgentToolCall : Type 0 where
  pub id : String
  pub name : String
  pub arguments : String

-- A message that is no answer of a tool has "" for `tool_call_id`.
pub record AgentMessage : Type 0 where
  pub role : String
  pub content : String
  pub tool_calls : List AgentToolCall
  pub tool_call_id : String

-- A message of the history: role and content
pub record Message : Type 0 where
  pub role : String
  pub content : String

-- What the model says.
pub record Choice : Type 0 where
  pub content : String
  pub tool_calls : List AgentToolCall

-- `textMsg`
abbrev pub text_msg : String → String → AgentMessage
text_msg role content = record {
  role = role;
  content = content;
  tool_calls = [];
  tool_call_id = "";
}

abbrev pub of_history : Message → AgentMessage
of_history h = text_msg h.role h.content

abbrev pub assistant_msg : Choice → AgentMessage
assistant_msg choice = record {
  role = "assistant";
  content = choice.content;
  tool_calls = choice.tool_calls;
  tool_call_id = "";
}

abbrev pub tool_msg : AgentToolCall → String → AgentMessage
tool_msg tc content = record {
  role = "tool";
  content = content;
  tool_calls = [];
  tool_call_id = tc.id;
}

-- How the loop ends: with a text of the model, without one, or with an error.
pub data AgentEnd : Type 0 where
  answered : String → AgentEnd
  gave_up call_failed empty_choices : AgentEnd

-- The model's answer to a thread, by how many calls came before; none is an error. And the tools: by
-- name and arguments, to the JSON of the result, or of the error.
module _ (ask : ℕ → List AgentMessage → Option (List Choice))
    (execute : (name arguments : String) → World → String × World) where
  -- The tools of a turn, in order.
  unfoldable pub run_tools :
      List AgentToolCall → List AgentMessage → World → List AgentMessage × World
  run_tools [] msgs w = (msgs, w)
  run_tools (tc ∷ tcs) msgs w =
      let (content, v) = execute tc.name tc.arguments w in
      run_tools tcs (msgs ++ tool_msg tc content ∷ []) v

  -- What is done with the first choice and its calls; `next` is the rest of the loop.
  unfoldable pub take_turn :
      (List AgentMessage → World → AgentEnd × List AgentMessage × World)
      → List AgentMessage
      → Choice
      → List AgentToolCall
      → World
      → AgentEnd × List AgentMessage × World
  take_turn next msgs choice [] w = (answered choice.content, msgs ++ assistant_msg choice ∷ [], w)
  take_turn next msgs choice (tc ∷ tcs) w =
      let (thread, v) = run_tools (tc ∷ tcs) (msgs ++ assistant_msg choice ∷ []) w in next thread v

  unfoldable pub on_answer :
      (List AgentMessage → World → AgentEnd × List AgentMessage × World)
      → List AgentMessage
      → Option (List Choice)
      → World
      → AgentEnd × List AgentMessage × World
  on_answer next msgs none w = (call_failed, msgs, w)
  on_answer next msgs (some []) w = (empty_choices, msgs, w)
  on_answer next msgs (some (choice ∷ others)) w = take_turn next msgs choice choice.tool_calls w

  unfoldable pub agent_loop : ℕ → List AgentMessage → World → AgentEnd × List AgentMessage × World
  agent_loop zero msgs w = (gave_up, msgs, w)
  agent_loop (suc n) msgs w =
      on_answer (agent_loop n) msgs (ask w.called msgs) (record w { called = w.called + 1 })

  -- `RunAgent`, with the thread that it leaves.
  unfoldable pub run_agent :
      String → List Message → String → World → AgentEnd × List AgentMessage × World
  run_agent prompt history message w =
      agent_loop 8
        (text_msg "system" prompt ∷ map of_history history ++ text_msg "user" message ∷ []) w
