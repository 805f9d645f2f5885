-- ===== src/Chat/Messages/Clear.antt =====
-- What `ClearHistory` leaves.
use weave_server.Prelude.{
  ◌≡◌, refl, ap, ◌∙◌, map, last_of, none, ◌==◌, Bool, true, false, not, some, List, [], ◌∷◌, select,
  arith, Bool-cases, inl, inr,
}
use weave_server.Model.{Uuid, ChatMessage}
use weave_server.Db.{World, ok, cache_get, cache_del}
use weave_server.Db.Fine.{Fine, statement-Fine}
use weave_server.Db.Redis.{cache_del-get}
use weave_server.Http.{answered, respond, status}
use weave_server.Provider.{Env}
use weave_server.Repository.ChatMessageRepo.{of_user, oldest_first, delete_by_user_id}
use weave_server.Chat.History.{HistoryCodec, history_key, load_history, message_of}
use weave_server.Chat.History.Recent.{load_history_rebuilt, warmed}
use weave_server.Chat.Messages.{clear_history, forget}

abbrev pub not_of : Uuid → ChatMessage → Bool
not_of user_id m = not (m.user_id == user_id)

select_own :
    (u : Uuid) (xs : List ChatMessage) → select (λ m. m.user_id == u) (select (not_of u) xs) ≡ []
select_own u [] = refl
select_own u (x ∷ xs) = elim (Bool-cases (x.user_id == u)) [
  | inl own ↦ rw own (select_own u xs)
  | inr other ↦ rw (other, other) (select_own u xs)
]

select_other :
    (u v : Uuid) (xs : List ChatMessage)
    → (v == u) ≡ false
    → select (λ m. m.user_id == v) (select (not_of u) xs) ≡ select (λ m. m.user_id == v) xs
select_other u v [] differ = refl
select_other u v (x ∷ xs) differ = elim (Bool-cases (x.user_id == u)) [
  | inl own ↦
      let foreign : (x.user_id == v) ≡ false = ground arith in
      rw (own, foreign) (select_other u v xs differ)
  | inr other ↦ rw other (ground (arith, select_other u v xs differ))
]

-- The world without the conversation of a user.
abbrev pub cleared : Env → Uuid → World → World
cleared env user_id w =
    (cache_del (history_key env user_id) (record w {
      tables = record w.tables { chat_messages = select (not_of user_id) w.tables.chat_messages };
    })).1

clear_history_lem :
    (env : Env) (user_id : Uuid) (w : World)
    → Fine w
    → env.has_redis ≡ true
    → clear_history env (some user_id) w
      ≡ (answered (respond 200 (status "cleared")), cleared env user_id w)
unfolding clear_history delete_by_user_id forget cache_del
clear_history_lem env user_id w fine redis = simp (
  statement-Fine
      (λ t. some (tt, record t { chat_messages = select (not_of user_id) t.chat_messages })) w fine,
  redis,
)

emptied :
    (env : Env) (user_id : Uuid) (w : World) → of_user user_id (cleared env user_id w).tables ≡ []
unfolding cache_del
emptied env user_id w = ap oldest_first (select_own user_id w.tables.chat_messages)

load_cleared :
    (env : Env) (codec : HistoryCodec) (user_id : Uuid) (v : World)
    → Fine v
    → env.has_redis ≡ true
    → cache_get (history_key env user_id) v ≡ (ok none, v)
    → of_user user_id v.tables ≡ []
    → load_history env codec user_id v ≡ (ok [], v)
load_cleared env codec user_id v fine redis cold empty =
    load_history_rebuilt env codec user_id v fine redis cold
    ∙ ap
        (λ ms. (
          ok (map message_of (last_of 20 ms)),
          warmed env codec user_id (map message_of (last_of 20 ms)) v,
        ))
        empty

-- On a connection that works, with Redis: after ClearHistory the user has no message in the database,
-- and the next turn starts with an empty history; the messages of another user are what they were, in
-- their order.
pub clear_history_forgets :
    (env : Env) (codec : HistoryCodec) (user_id other : Uuid) (w : World)
    → Fine w
    → env.has_redis ≡ true
    → (other == user_id) ≡ false
    → let v = cleared env user_id w in
      (clear_history env (some user_id) w ≡ (answered (respond 200 (status "cleared")), v))
      × (of_user user_id v.tables ≡ [])
      × (load_history env codec user_id v ≡ (ok [], v))
      × (of_user other v.tables ≡ of_user other w.tables)
unfolding cache_del
clear_history_forgets env codec user_id other w fine redis differ = (
  clear_history_lem env user_id w fine redis,
  emptied env user_id w,
  load_cleared env codec user_id (cleared env user_id w) fine redis
      (cache_del-get (history_key env user_id) _) (emptied env user_id w),
  ap oldest_first (select_other user_id other w.tables.chat_messages differ),
)
