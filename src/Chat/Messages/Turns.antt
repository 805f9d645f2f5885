-- ===== src/Chat/Messages/Turns.antt =====
-- From one turn of a conversation to the next.
use weave_server.Prelude.{
  take, ◌≡◌, refl, ap, ◌∙◌, sym, ℕ, ◌<◌, ◌==◌, String, true, some, any, List, last_of, take, drop,
  length, take-append-left, length-take, Bool, ◌≤◌,
}
use weave_server.Model.{ChatMessage, Uuid}
use weave_server.Db.{World, ok, ◌>>=◌, ◌>>◌, cache_set, cache_del}
use weave_server.Db.Fine.{Fine, query-Fine}
use weave_server.Db.Redis.{after}
use weave_server.Http.{answered, respond, messages}
use weave_server.Provider.{Env}
use weave_server.Repository.ChatMessageRepo.{of_user, list_by_user_id}
use weave_server.Repository.ChatMessageRepo.Order.{MadeBy}
use weave_server.Chat.Agent.{answered, Message}
use weave_server.Chat.Confirm.{settled, load_settled}
use weave_server.Chat.History.{trimmed, append_pair, load_history, persist_pair}
use weave_server.Chat.History.Recent.{
  saved, with_pair, of_user-with_pair, window, load_history_soon, persist_pair-window,
  persist_pair_lem, trimmed_pair, save_history_lem,
}
use weave_server.Chat.Messages.{get_history, false, Assistant, Keyword, on_keyword, finish_turn}
use weave_server.Chat.Dispatch.{shortcut_confirm}
use weave_server.Chat.Tools.{tool_cancel_action}
use weave_server.Chat.Wording.{confirm_text}
use weave_server.Chat.Pending.{clear_pending}

-- The world after a turn.
abbrev pub finished : Env → Assistant → Uuid → List Message → (msg answer : String) → World → World
finished env a user_id history msg answer w =
    saved env a.history_codec user_id (append_pair history msg answer)
      (with_pair user_id msg answer false w)

finish_turn_lem :
    (env : Env) (a : Assistant) (user_id : Uuid) (history : List Message) (msg answer : String)
    (w : World)
    → Fine w
    → env.has_redis ≡ true
    → any (λ u. u.id == user_id) w.tables.users ≡ true
    → finish_turn env a user_id history msg answer w
      ≡ (ok answer, finished env a user_id history msg answer w)
unfolding finish_turn ◌>>=◌
finish_turn_lem env a user_id history msg answer w fine redis known = simp (
  persist_pair_lem user_id msg answer false w fine known,
  save_history_lem env a.history_codec user_id (append_pair history msg answer)
      (with_pair user_id msg answer false w) redis,
)

-- On a connection that works, with Redis, for a user who is there, where no message is newer than now
-- and what is saved can be read back from its JSON: a turn whose history was the last 20 messages of the
-- database ends with its answer, and the history of a turn that follows within 2 hours is again the
-- last 20 messages of the database, the new pair at their end, though the database is not asked.
pub finish_turn-load_history :
    (env : Env) (a : Assistant) (user_id : Uuid) (msg answer : String) (time : ℕ) (w : World)
    → Fine w
    → env.has_redis ≡ true
    → any (λ u. u.id == user_id) w.tables.users ≡ true
    → MadeBy w.now w.tables.chat_messages
    → (let kept = trimmed (append_pair (window user_id w) msg answer) in
        a.history_codec.decode (a.history_codec.encode kept) ≡ some kept)
    → time < 7200
    → let (result, v) = finish_turn env a user_id (window user_id w) msg answer w in
      (result ≡ ok answer)
      × (load_history env a.history_codec user_id (after time v)
          ≡ (ok (window user_id v), after time v))
unfolding cache_set
finish_turn-load_history env a user_id msg answer time w fine redis known past readable soon =
    let history = window user_id w in
    let u = with_pair user_id msg answer false w in
    let kept =
      load_history_soon env a.history_codec user_id history msg answer time u redis readable soon in
    let same : append_pair (last_of 18 history) msg answer ≡ window user_id u =
      sym (trimmed_pair history msg answer)
      ∙ persist_pair-window user_id msg answer false w fine known past
      ∙ ap (λ x. window user_id x.1) (persist_pair_lem user_id msg answer false w fine known) in
    rw (finish_turn_lem env a user_id history msg answer w fine redis known) (
      refl,
      kept.1 ∙ ap (λ ms. (ok ms, after time (finished env a user_id history msg answer w))) same,
    )

-- With Redis: after the keyword for no, the keyword for yes confirms nothing: no table changes, no
-- provider is asked, and what waited is gone.
pub no-yes :
    (env : Env) (a : Assistant) (user_id : Uuid) (w : World)
    → env.has_redis ≡ true
    → (on_keyword env a user_id Keyword.no_word >> on_keyword env a user_id Keyword.yes_word) w ≡ (
      ok
          "No pending action to confirm. Start a new transfer by saying \"send 5000 to 0123456789\".",
      settled env user_id w,
    )
unfolding on_keyword tool_cancel_action clear_pending shortcut_confirm ◌>>=◌ cache_del confirm_text
no-yes env a user_id w redis = simp (redis, load_settled env a.codec user_id w redis)

-- The messages that `GetHistory` shows where the query has no limit.
abbrev pub shown : Uuid → World → List ChatMessage
shown user_id w = take 100 (of_user user_id w.tables)

-- On a connection that works, for a user who is there and has 100 messages or more, none of them newer
-- than now: `GetHistory` without a limit answers with 100 messages, and after another pair has been
-- recorded it answers with the same ones: no new message is shown any more.
pub get_history_full :
    (a : Assistant) (user_id : Uuid) (msg answer : String) (is_error : Bool) (w : World)
    → Fine w
    → any (λ u. u.id == user_id) w.tables.users ≡ true
    → MadeBy w.now w.tables.chat_messages
    → 100 ≤ length (of_user user_id w.tables)
    → let v = (persist_pair user_id msg answer is_error w).1 in
      (get_history a (some user_id) "" w ≡ (answered (respond 200 (messages (shown user_id w))), w))
      × (get_history a (some user_id) "" v
          ≡ (answered (respond 200 (messages (shown user_id w))), v))
      × (length (shown user_id w) ≡ 100)
unfolding get_history list_by_user_id ◌>>=◌
get_history_full a user_id msg answer is_error w fine known past long =
    let rows = of_user user_id w.tables in
    let u = with_pair user_id msg answer is_error w in
    let more : take 100 (of_user user_id u.tables) ≡ take 100 rows =
      ap (take 100) (of_user-with_pair user_id msg answer is_error w past)
      ∙ take-append-left 100 rows _ long in
    (
      rw (query-Fine (λ t. take 100 (drop 0 (of_user user_id t))) w fine) refl,
      rw (persist_pair_lem user_id msg answer is_error w fine known)
          (rw (query-Fine (λ t. take 100 (drop 0 (of_user user_id t))) u fine) (rw more refl)),
      length-take 100 rows long,
    )
