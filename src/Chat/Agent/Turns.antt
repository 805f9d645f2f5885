-- ===== src/Chat/Agent/Turns.antt =====
-- How often the loop asks the model.
use weave_server.Prelude.{
  ◌≡◌, refl, subst, ◌∙◌, ℕ, zero, suc, ◌+◌, ◌≤◌, String, Option, none, some, List, [], ◌∷◌, ◌++◌,
  map, length, select, str_eq, arith, Bool-cases, inl, inr,
}
use weave_server.Db.{World}
use weave_server.Chat.Agent.{
  AgentMessage, AgentToolCall, Message, Choice, AgentEnd, answered, gave_up, call_failed,
  empty_choices, text_msg, of_history, assistant_msg, tool_msg, run_tools, take_turn, on_answer,
  agent_loop, run_agent,
}

-- The turns of the assistant in a thread.
abbrev pub turns : List AgentMessage → ℕ
turns msgs = length (select (λ m. str_eq m.role "assistant") msgs)

turns-append : (xs ys : List AgentMessage) → turns (xs ++ ys) ≡ turns xs + turns ys
turns-append [] ys = omega arith
turns-append (x ∷ xs) ys = elim (Bool-cases (str_eq x.role "assistant")) [
  | inl hit ↦ rw hit (omega (arith, turns-append xs ys))
  | inr miss ↦ rw miss (turns-append xs ys)
]

-- The limit is reached where the loop gave up, and never passed.
abbrev pub Within : AgentEnd → ℕ → ℕ → Type 0
Within (answered text) made limit = made ≤ limit
Within gave_up made limit = made ≡ limit
Within call_failed made limit = made ≤ limit
Within empty_choices made limit = made ≤ limit

module _ (ask : ℕ → List AgentMessage → Option (List Choice))
    (execute : (name arguments : String) → World → String × World) where
  turns-run_tools :
      (tcs : List AgentToolCall) (msgs : List AgentMessage) (w : World)
      → turns (run_tools ask execute tcs msgs w).0 ≡ turns msgs
  unfolding run_tools
  turns-run_tools [] msgs w = refl
  turns-run_tools (tc ∷ tcs) msgs w =
      let (content, v) = execute tc.name tc.arguments w in
      turns-run_tools tcs (msgs ++ tool_msg tc content ∷ []) v
      ∙ turns-append msgs (tool_msg tc content ∷ [])
      ∙ omega arith

  turns-assistant :
      (msgs : List AgentMessage) (choice : Choice)
      → turns (msgs ++ assistant_msg choice ∷ []) ≡ turns msgs + 1
  turns-assistant msgs choice = turns-append msgs (assistant_msg choice ∷ [])

  -- The rest of the loop stays within n more turns.
  module _ (n : ℕ) (next : List AgentMessage → World → AgentEnd × List AgentMessage × World)
      (rest : (ms : List AgentMessage) (v : World)
        → Within (next ms v).0 (turns (next ms v).1) (turns ms + n)) where
    take_turn-Within :
        (msgs : List AgentMessage) (choice : Choice) (calls : List AgentToolCall) (w : World)
        → Within
            (take_turn ask execute next msgs choice calls w).0
            (turns (take_turn ask execute next msgs choice calls w).1)
            (turns msgs + suc n)
    unfolding take_turn
    take_turn-Within msgs choice [] w = omega (arith, turns-assistant msgs choice)
    take_turn-Within msgs choice (tc ∷ tcs) w =
        let thread = msgs ++ assistant_msg choice ∷ [] in
        let (ms, v) = run_tools ask execute (tc ∷ tcs) thread w in
        let e : turns ms + n ≡ turns msgs + suc n =
          omega (arith, turns-run_tools (tc ∷ tcs) thread w, turns-assistant msgs choice) in
        subst (λ limit. Within (next ms v).0 (turns (next ms v).1) limit) e (rest ms v)

    on_answer-Within :
        (msgs : List AgentMessage) (o : Option (List Choice)) (w : World)
        → Within
            (on_answer ask execute next msgs o w).0
            (turns (on_answer ask execute next msgs o w).1)
            (turns msgs + suc n)
    unfolding on_answer
    on_answer-Within msgs none w = omega arith
    on_answer-Within msgs (some []) w = omega arith
    on_answer-Within msgs (some (choice ∷ others)) w =
        take_turn-Within msgs choice choice.tool_calls w

  agent_loop-Within :
      (n : ℕ) (msgs : List AgentMessage) (w : World)
      → Within
          (agent_loop ask execute n msgs w).0
          (turns (agent_loop ask execute n msgs w).1)
          (turns msgs + n)
  unfolding agent_loop
  agent_loop-Within zero msgs w = omega arith
  agent_loop-Within (suc n) msgs w =
      on_answer-Within n (agent_loop ask execute n) (agent_loop-Within n) msgs (ask w.called msgs)
        (record w { called = w.called + 1 })

  -- Whatever the model says and whatever its tools do, RunAgent ends, after at most 8 turns of the
  -- model; where it gives up, it is after 8 turns.
  pub run_agent-Within :
      (prompt : String) (history : List Message) (message : String) (w : World)
      → Within
          (run_agent ask execute prompt history message w).0
          (turns (run_agent ask execute prompt history message w).1)
          (turns (map of_history history) + 8)
  unfolding run_agent
  run_agent-Within prompt history message w =
      let seed =
        text_msg "system" prompt ∷ map of_history history ++ text_msg "user" message ∷ [] in
      let e : turns seed + 8 ≡ turns (map of_history history) + 8 =
        omega (arith, turns-append (map of_history history) (text_msg "user" message ∷ [])) in
      subst
        (λ limit.
          Within (agent_loop ask execute 8 seed w).0 (turns (agent_loop ask execute 8 seed w).1)
            limit)
        e (agent_loop-Within 8 seed w)
