-- ===== src/Tests/Chats.antt =====
-- The theorems on the chat, at the example's user.
use weave_server.Prelude.{
  Option, ◌+◌, str_eq, if◌then◌else◌, ◌≡◌, refl, ℕ, none, some, List, [], ◌∷◌,
}
use weave_server.Prelude.Int.{pos}
use weave_server.Db.{World, ok, cache_set, cache_get, ◌>>=◌}
use weave_server.Chat.Pending.{PendingTransfer, Codec, transfer, load_pending}
use weave_server.Chat.Tools.{TransferArgs, proposed, confirmed_request, tool_confirm_transfer}
use weave_server.Chat.Answers.{transferred, refused, Directory}
use weave_server.Chat.Confirm.{waiting, settled, confirm_once}
use weave_server.Chat.Agent.{Choice, AgentMessage, run_agent}
use weave_server.Chat.Agent.Turns.{turns, Within, run_agent-Within}
use weave_server.Service.TransferService.{replay}
use weave_server.Service.TransferService.Preflight.{initiate_transfer-replay}
use weave_server.Tests.{env, world, transfer as made}

-- ₦5,000, as a decimal number
abbrev args : TransferArgs
args = record {
  amount = pos 5000000000;
  recipient_account = "0000000001";
  recipient_bank = "GTBank";
  recipient_name = "";
}

abbrev pub directory : Directory
directory = record {
  banks = λ n. some (record { name = "GTBank"; slug = "gtbank"; code = "058" } ∷ []);
  resolve = λ n account code. if str_eq code "058" then some "Bola" else none;
  lower = λ text. text;
  contains = λ text part. str_eq text part;
}

abbrev proposal : PendingTransfer
proposal = proposed env 1 "five thousand" args "Bola"

-- Paystack is asked twice.
abbrev asked : World
asked = record world { called = world.called + 2 }

abbrev pub codec : Codec
codec = record { encode = λ a. "transfer"; decode = λ text. some (transfer proposal) }

-- A proposal under the key of a transfer that was made, and the user says yes twice.
abbrev again : PendingTransfer
again = record proposal { idempotency_key = "K1" }

abbrev knows_again : Codec
knows_again = record { encode = λ a. "transfer"; decode = λ text. some (transfer again) }

abbrev proposed_again : World
proposed_again = waiting env knows_again 1 again world

confirm_once_example :
    (tool_confirm_transfer env knows_again 1 proposed_again
      ≡ (ok (transferred (replay made) again), settled env 1 proposed_again))
    × (tool_confirm_transfer env knows_again 1 (settled env 1 proposed_again) ≡ (
      ok (refused "no pending transfer found — it may have expired"),
      settled env 1 proposed_again,
    ))
unfolding load_pending cache_set cache_get ◌>>=◌
confirm_once_example =
    confirm_once env knows_again 1 again (replay made) proposed_again proposed_again refl refl (
      initiate_transfer-replay env 1 (confirmed_request again) made proposed_again (refl, refl) refl
        refl)

-- A model that calls a tool each time it is asked.
abbrev restless : ℕ → List AgentMessage → Option (List Choice)
restless n msgs = some (
    record {
      content = "";
      tool_calls = record { id = "t"; name = "get_wallet_balance"; arguments = "{}" } ∷ [];
    }
    ∷ [])

run_agent-Within_example :
    Within
      (run_agent restless (λ name arguments w. ("{}", w)) "You are Weave" [] "hello" world).0
      (turns
        (run_agent restless (λ name arguments w. ("{}", w)) "You are Weave" [] "hello" world).1)
      8
run_agent-Within_example =
    run_agent-Within restless (λ name arguments w. ("{}", w)) "You are Weave" [] "hello" world
