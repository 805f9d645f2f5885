-- ===== src/Repository/ChatMessageRepo.antt =====
-- internal/repository/chat_message_repo.go. Rows of the same second stay in the order in which they
-- came.
pub mod Order
use weave_server.Prelude.{
  Option, ℕ, ◌-◌, String, Bool, not, ◌&&◌, ◌||◌, some, none, List, [], ◌∷◌, ◌++◌, any, last_of,
  select, take, drop, length, str_eq, ◌==◌, leb, if◌then◌else◌,
}
use weave_server.Prelude.Int.{ℤ, pos, pos_part, leb_ℤ}
use weave_server.Model.{Uuid, ChatMessage}
use weave_server.Db.{Tables, M, gets, ◌>>=◌, statement, query, new_uuid}

-- CHECK (role IN ('user', 'assistant'))
abbrev pub role_check : ChatMessage → Bool
role_check m = str_eq m.role "user" || str_eq m.role "assistant"

unfoldable pub insert : ChatMessage → Tables → Option (Unit {0} × Tables)
insert m t =
    if any (λ u. u.id == m.user_id) t.users && role_check m
    then some (tt, record t { chat_messages = t.chat_messages ++ m ∷ [] })
    else none

-- `Create`
unfoldable pub create : Uuid → (role content : String) → (is_error : Bool) → M (Unit {0})
unfolding insert
create user_id role content is_error = do
  id ← new_uuid
  now ← gets (λ w. w.now)
  statement (
      insert (record {
        id = id;
        user_id = user_id;
        role = role;
        content = content;
        is_error = is_error;
        created_at = now;
      }))

abbrev pub by_age : ChatMessage → List ChatMessage → List ChatMessage
by_age x [] = x ∷ []
by_age x (y ∷ ys) = if leb x.created_at y.created_at then x ∷ y ∷ ys else y ∷ by_age x ys

-- ORDER BY created_at ASC
abbrev pub oldest_first : List ChatMessage → List ChatMessage
oldest_first [] = []
oldest_first (x ∷ xs) = by_age x (oldest_first xs)

-- The messages of a user.
abbrev pub of_user : Uuid → Tables → List ChatMessage
of_user user_id t = oldest_first (select (λ m. m.user_id == user_id) t.chat_messages)

-- `ListByUserID`
unfoldable pub list_by_user_id : Uuid → (limit : ℤ) → (offset : ℕ) → M (List ChatMessage)
list_by_user_id user_id limit offset =
    let rows = if leb_ℤ limit (pos 0) then 50 else pos_part limit in
    query (λ t. take rows (drop offset (of_user user_id t)))

-- `DeleteByUserID`
unfoldable pub delete_by_user_id : Uuid → M (Unit {0})
delete_by_user_id user_id = statement (λ t.
    some
      (tt, record t { chat_messages = select (λ m. not (m.user_id == user_id)) t.chat_messages }))

-- `RecentAsLLMMessages`: the n newest, the oldest of them first.
unfoldable pub recent_as_llm_messages : Uuid → ℕ → M (List ChatMessage)
recent_as_llm_messages user_id n = query (λ t. last_of n (of_user user_id t))
