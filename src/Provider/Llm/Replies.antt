-- ===== src/Provider/Llm/Replies.antt =====
-- What is made of the replies of a language model.
use weave_server.Prelude.{
  ◌≡◌, refl, ◌+◌, ◌==◌, ◌&&◌, ◌⊎◌, inl, inr, ℕ, String, Bool, Bool-cases, true, false, Option, none,
  some, List, [], ◌∷◌, ◌++◌, map, str_eq, if◌then◌else◌,
}
use weave_server.Prelude.Int.{pos}
use weave_server.Db.{World}
use weave_server.Provider.{Decimal}
use weave_server.Provider.Transport.{HttpRequest, Reply, Transport, Answer, got, failed, value_of}
use weave_server.Chat.Agent.{
  AgentToolCall, Message, Choice, run_agent, agent_loop, on_answer, text_msg, of_history,
  call_failed,
}
use weave_server.Provider.Llm.{
  Json, Client, ParsedIntent, completion, agent_call, ask_over, intent_of, first_intent, filled,
  with_defaults, is_zero, parse_intent_with_context,
}

-- No reply, or one that has not the status 200.
abbrev pub Unreached : Option Reply → Type 0
Unreached none = Unit {0}
Unreached (some reply) = (reply.status_code == 200) ≡ false

completion_down :
    (json : Json) (o : Option Reply)
    → Unreached o
    → value_of (λ (choices : List Choice). choices) (completion json.choices o) ≡ none
unfolding completion value_of
completion_down json none down = refl
completion_down json (some reply) down = rw down refl

-- While the language model cannot be reached, or answers with a status other than 200, RunAgent fails at
-- its first turn: no tool is run, and nothing but the count of the calls changes.
pub run_agent_down :
    (json : Json) (send : ℕ → Transport) (c : Client) (tools : List String)
    (execute : (name arguments : String) → World → String × World) (prompt : String)
    (history : List Message) (message : String) (w : World)
    → ((r : HttpRequest) → Unreached (send w.called r))
    → run_agent (ask_over json send c tools) execute prompt history message w ≡ (
      call_failed,
      text_msg "system" prompt ∷ map of_history history ++ text_msg "user" message ∷ [],
      record w { called = w.called + 1 },
    )
unfolding run_agent agent_loop on_answer ask_over agent_call
run_agent_down json send c tools execute prompt history message w down =
    rw (completion_down json (send w.called _) (down _)) refl

-- An intent with the defaults: it is unknown, or it is held with some confidence, and money to be sent
-- has a currency.
abbrev pub Complete : Answer ParsedIntent → Type 0
Complete (failed e) = Unit {0}
Complete (got p) =
    str_eq p.intent "unknown" ≡ true
    ⊎ (is_zero p.confidence ≡ false)
      × ((str_eq p.intent "send_money" && str_eq p.currency "") ≡ false)

some_confidence : (d : Decimal) → is_zero (if is_zero d then pos 900000 else d) ≡ false
some_confidence d = elim (Bool-cases (is_zero d)) [
  | inl nothing ↦ rw nothing refl
  | inr something ↦ rw (something, something) refl
]

some_currency :
    (sends : Bool) (currency : String)
    → (sends && str_eq (if str_eq currency "" && sends then "NGN" else currency) "") ≡ false
some_currency true currency = elim (Bool-cases (str_eq currency "")) [
  | inl missing ↦ rw missing refl
  | inr there ↦ rw (there, there) refl
]
some_currency false currency = refl

filled-Complete :
    (raw arguments : String) (o : Option ParsedIntent) → Complete (filled raw arguments o)
unfolding with_defaults
filled-Complete raw arguments none = tt
filled-Complete raw arguments (some p) =
    inr (some_confidence p.confidence, some_currency (str_eq p.intent "send_money") p.currency)

intent_of-Complete :
    (json : Json) (raw : String) (calls : List AgentToolCall) → Complete (intent_of json raw calls)
unfolding intent_of
intent_of-Complete json raw [] = inl refl
intent_of-Complete json raw (tc ∷ others) =
    elim (Bool-cases (str_eq tc.name "parse_transfer_intent")) [
      | inl named ↦ rw named (filled-Complete raw tc.arguments (json.intent tc.arguments))
      | inr other ↦ rw other (inl refl)
    ]

first_intent-Complete :
    (json : Json) (answer : Answer (List Choice)) → Complete (first_intent json answer)
unfolding first_intent
first_intent-Complete json (failed e) = tt
first_intent-Complete json (got []) = tt
first_intent-Complete json (got (choice ∷ others)) =
    intent_of-Complete json (json.trim choice.content) choice.tool_calls

-- Whatever the model is asked and answers, an intent that ParseIntentWithContext returns is unknown, or
-- it is held with some confidence, and names a currency if money is to be sent.
pub parse_intent_with_context-Complete :
    (json : Json) (send : Transport) (c : Client) (prompt : String) (history : List Message)
    (system_context : String)
    → Complete (parse_intent_with_context json send c prompt history system_context)
unfolding parse_intent_with_context
parse_intent_with_context-Complete json send c prompt history system_context =
    first_intent-Complete json _
