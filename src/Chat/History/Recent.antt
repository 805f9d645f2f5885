-- ===== src/Chat/History/Recent.antt =====
-- What is loaded of a conversation, from Redis and from PostgreSQL.
use weave_server.Prelude.{
  ◌≡◌, refl, ℕ, ◌-◌, ◌<◌, ◌==◌, String, Bool, true, false, none, some, List, [], ◌∷◌, ◌++◌, any,
  append_assoc, All-append, map, length, drop, arith, ltb, Bool-cases, inl, inr, ap, sym, ◌∙◌,
  last_of, last_of-append, map-last_of, drop-append, length-append,
}
use mathlib.Core.List.{map-append}
use weave_server.Model.{Uuid, ChatMessage}
use weave_server.Db.{World, ok, cache_get, cache_set, ◌>>=◌}
use weave_server.Db.Fine.{Fine, query-Fine}
use weave_server.Db.Redis.{after, cache_set-get}
use weave_server.Provider.{Env}
use weave_server.Chat.Agent.{Message}
use weave_server.Chat.History.{
  HistoryCodec, history_key, trimmed, save_history, load_history, warm_history, warm_up, message_of,
  some_messages, append_pair, persist_pair,
}
use weave_server.Repository.ChatMessageRepo.{of_user, recent_as_llm_messages}
use weave_server.Repository.ChatMessageRepo.Order.{
  MadeBy, new_message, with_message, create_lem, of_user-with_message,
}

-- The cache after `saveHistory`.
abbrev pub saved : Env → HistoryCodec → Uuid → List Message → World → World
saved env codec user_id msgs w =
    (cache_set (history_key env user_id) (codec.encode (trimmed msgs)) 7200 w).1

trimmed_lem : (msgs : List Message) → trimmed msgs ≡ last_of 20 msgs
trimmed_lem msgs = elim (Bool-cases (ltb 20 (length msgs))) [
  | inl long ↦ rw long refl
  | inr short ↦ let e : length msgs - 20 ≡ 0 = ground arith in rw (short, e) refl
]

-- What is left of a history of any length once a pair has been added: both texts of the pair, and
-- before them at most 18 messages.
pub trimmed_pair :
    (history : List Message) (user assistant : String)
    → trimmed (append_pair history user assistant) ≡ append_pair (last_of 18 history) user assistant
trimmed_pair history user assistant =
    let pair : List Message =
      record { role = "user"; content = user }
      ∷ record { role = "assistant"; content = assistant }
      ∷ [] in
    let cut : length (history ++ pair) - 20 ≡ length history - 18 =
      omega (arith, length-append history pair) in
    trimmed_lem (history ++ pair)
    ∙ ap (λ n. drop n (history ++ pair)) cut
    ∙ drop-append (length history - 18) history pair (omega arith)

nonempty :
    (older : List Message) (user assistant : String)
    → some_messages (some (append_pair older user assistant))
      ≡ some (append_pair older user assistant)
nonempty [] user assistant = refl
nonempty (m ∷ ms) user assistant = refl

warm_saved :
    (env : Env) (codec : HistoryCodec) (user_id : Uuid) (msgs : List Message) (time : ℕ) (w : World)
    → env.has_redis ≡ true
    → codec.decode (codec.encode (trimmed msgs)) ≡ some (trimmed msgs)
    → time < 7200
    → warm_history env codec user_id (after time (saved env codec user_id msgs w))
      ≡ (ok (some_messages (some (trimmed msgs))), after time (saved env codec user_id msgs w))
unfolding warm_history ◌>>=◌
warm_saved env codec user_id msgs time w redis readable soon = simp (
  redis,
  cache_set-get (history_key env user_id) (codec.encode (trimmed msgs)) 7200 time w soon,
  readable,
)

load_warm :
    (env : Env) (codec : HistoryCodec) (user_id : Uuid) (msgs : List Message) (w : World)
    → warm_history env codec user_id w ≡ (ok (some msgs), w)
    → load_history env codec user_id w ≡ (ok msgs, w)
unfolding load_history ◌>>=◌
load_warm env codec user_id msgs w warm = simp warm

pub save_history_lem :
    (env : Env) (codec : HistoryCodec) (user_id : Uuid) (msgs : List Message) (w : World)
    → env.has_redis ≡ true
    → save_history env codec user_id msgs w ≡ (ok tt, saved env codec user_id msgs w)
unfolding save_history ◌>>=◌ cache_set
save_history_lem env codec user_id msgs w redis = rw redis refl

-- With Redis, where what is saved can be read back from its JSON: within 2 hours after a history with a
-- new pair at its end has been saved, it is loaded from Redis as it was saved: that pair, and before
-- it the last 18 messages; the database is not asked.
pub load_history_soon :
    (env : Env) (codec : HistoryCodec) (user_id : Uuid) (history : List Message)
    (user assistant : String) (time : ℕ) (w : World)
    → env.has_redis ≡ true
    → codec.decode (codec.encode (trimmed (append_pair history user assistant)))
      ≡ some (trimmed (append_pair history user assistant))
    → time < 7200
    → let msgs = append_pair history user assistant in
      let v = after time (saved env codec user_id msgs w) in
      (save_history env codec user_id msgs w ≡ (ok tt, saved env codec user_id msgs w))
      × (load_history env codec user_id v
          ≡ (ok (append_pair (last_of 18 history) user assistant), v))
load_history_soon env codec user_id history user assistant time w redis readable soon =
    let msgs = append_pair history user assistant in
    let kept : some_messages (some (trimmed msgs))
        ≡ some (append_pair (last_of 18 history) user assistant) =
      ap (λ ms. some_messages (some ms)) (trimmed_pair history user assistant)
      ∙ nonempty (last_of 18 history) user assistant in
    (
      save_history_lem env codec user_id msgs w redis,
      load_warm env codec user_id (append_pair (last_of 18 history) user assistant) _ (
          warm_saved env codec user_id msgs time w redis readable soon
          ∙ ap (λ o. (ok o, after time (saved env codec user_id msgs w))) kept),
    )

-- The messages of a user in the database, as the model is to see them: the last 20.
abbrev pub window : Uuid → World → List Message
window user_id w = map message_of (last_of 20 (of_user user_id w.tables))

-- What `loadHistory` makes of rows.
abbrev pub warmed : Env → HistoryCodec → Uuid → List Message → World → World
warmed env codec user_id [] w = w
warmed env codec user_id (m ∷ ms) w = saved env codec user_id (m ∷ ms) w

warm_up_lem :
    (env : Env) (codec : HistoryCodec) (user_id : Uuid) (rows : List ChatMessage) (w : World)
    → env.has_redis ≡ true
    → warm_up env codec user_id rows w
      ≡ (ok (map message_of rows), warmed env codec user_id (map message_of rows) w)
unfolding warm_up save_history ◌>>=◌ cache_set
warm_up_lem env codec user_id [] w redis = refl
warm_up_lem env codec user_id (row ∷ rows) w redis = rw redis refl

-- On a connection that works, with Redis, where it has nothing for the user: the last 20 messages in
-- the database are loaded, the oldest first, and they are saved in Redis, if there are any.
pub load_history_rebuilt :
    (env : Env) (codec : HistoryCodec) (user_id : Uuid) (w : World)
    → Fine w
    → env.has_redis ≡ true
    → cache_get (history_key env user_id) w ≡ (ok none, w)
    → load_history env codec user_id w
      ≡ (ok (window user_id w), warmed env codec user_id (window user_id w) w)
unfolding load_history warm_history recent_as_llm_messages ◌>>=◌
load_history_rebuilt env codec user_id w fine redis cold = simp (
  redis,
  cold,
  query-Fine (λ t. last_of 20 (of_user user_id t)) w fine,
  warm_up_lem env codec user_id (last_of 20 (of_user user_id w.tables)) w redis,
)

-- The world after a pair has been recorded.
abbrev pub with_pair : Uuid → (user assistant : String) → (is_error : Bool) → World → World
with_pair user_id user assistant is_error w =
    let v = with_message (new_message user_id "user" user false w) w in
    with_message (new_message user_id "assistant" assistant is_error v) v

pub persist_pair_lem :
    (user_id : Uuid) (user assistant : String) (is_error : Bool) (w : World)
    → Fine w
    → any (λ u. u.id == user_id) w.tables.users ≡ true
    → persist_pair user_id user assistant is_error w
      ≡ (ok tt, with_pair user_id user assistant is_error w)
unfolding persist_pair ◌>>=◌
persist_pair_lem user_id user assistant is_error w fine known =
    let v = with_message (new_message user_id "user" user false w) w in
    simp (
      create_lem user_id "user" user false w fine known refl,
      create_lem user_id "assistant" assistant is_error v fine known refl,
    )

-- The rows of the user after a pair.
pub of_user-with_pair :
    (user_id : Uuid) (user assistant : String) (is_error : Bool) (w : World)
    → MadeBy w.now w.tables.chat_messages
    → let first = new_message user_id "user" user false w in
      let second = new_message user_id "assistant" assistant is_error (with_message first w) in
      of_user user_id (with_pair user_id user assistant is_error w).tables
      ≡ of_user user_id w.tables ++ first ∷ second ∷ []
of_user-with_pair user_id user assistant is_error w past =
    let first = new_message user_id "user" user false w in
    let v = with_message first w in
    let second = new_message user_id "assistant" assistant is_error v in
    of_user-with_message user_id "assistant" assistant is_error v
      (All-append _ w.tables.chat_messages (first ∷ []) past (omega arith, tt))
    ∙ ap (λ xs. xs ++ second ∷ []) (of_user-with_message user_id "user" user false w past)
    ∙ append_assoc (of_user user_id w.tables) (first ∷ []) (second ∷ [])

-- On a connection that works, for a user who is there, where no message of the database is newer than
-- now: after a pair has been recorded, with an error or without, what `saveHistory` keeps of the old
-- window with the pair at its end is the new window.
pub persist_pair-window :
    (user_id : Uuid) (user assistant : String) (is_error : Bool) (w : World)
    → Fine w
    → any (λ u. u.id == user_id) w.tables.users ≡ true
    → MadeBy w.now w.tables.chat_messages
    → trimmed (append_pair (window user_id w) user assistant)
      ≡ window user_id (persist_pair user_id user assistant is_error w).1
persist_pair-window user_id user assistant is_error w fine known past =
    let rows = of_user user_id w.tables in
    let pair : List Message = append_pair [] user assistant in
    trimmed_lem (append_pair (window user_id w) user assistant)
    ∙ ap (λ xs. last_of 20 (xs ++ pair)) (map-last_of message_of 20 rows)
    ∙ last_of-append 20 (map message_of rows) pair
    ∙ ap (last_of 20) (
        sym (
          ap (map message_of) (of_user-with_pair user_id user assistant is_error w past)
          ∙ map-append message_of rows _))
    ∙ sym (
        map-last_of message_of 20
          (of_user user_id (with_pair user_id user assistant is_error w).tables))
    ∙ ap (λ x. window user_id x.1)
        (sym (persist_pair_lem user_id user assistant is_error w fine known))
