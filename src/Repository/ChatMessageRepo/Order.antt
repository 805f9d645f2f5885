-- ===== src/Repository/ChatMessageRepo/Order.antt =====
-- A message that is newer than the others comes last.
use weave_server.Prelude.{
  ◌≡◌, refl, ℕ, ◌≤◌, String, Bool, true, List, [], ◌∷◌, ◌++◌, All, any, select, ◌==◌, ◌||◌, str_eq,
  leb, arith, Bool-cases, inl, inr, ◌+◌, ==_refl,
}
use weave_server.Model.{Uuid, ChatMessage}
use weave_server.Db.{World, ok, ◌>>=◌, new_uuid}
use weave_server.Db.Fine.{Fine, statement-Fine}
use weave_server.Repository.ChatMessageRepo.{by_age, oldest_first, of_user, create, insert}

by_age-append :
    (x m : ChatMessage) (ys : List ChatMessage)
    → x.created_at ≤ m.created_at
    → by_age x (ys ++ m ∷ []) ≡ by_age x ys ++ m ∷ []
by_age-append x m [] h =
    let first : leb x.created_at m.created_at ≡ true = ground arith in rw first refl
by_age-append x m (y ∷ ys) h = elim (Bool-cases (leb x.created_at y.created_at)) [
  | inl older ↦ rw older refl
  | inr newer ↦ rw (newer, by_age-append x m ys h) refl
]

-- No message was made after the time.
abbrev pub MadeBy : ℕ → List ChatMessage → Type 0
MadeBy now = All (λ m. ChatMessage.created_at m ≤ now)

oldest_first-append :
    (p : ChatMessage → Bool) (m : ChatMessage) (xs : List ChatMessage)
    → p m ≡ true
    → MadeBy m.created_at xs
    → oldest_first (select p (xs ++ m ∷ [])) ≡ oldest_first (select p xs) ++ m ∷ []
oldest_first-append p m [] own past = rw own refl
oldest_first-append p m (x ∷ xs) own past =
    let rest = oldest_first-append p m xs own past.1 in
    elim (Bool-cases (p x)) [
      | inl hit ↦ rw (hit, rest) (by_age-append x m (oldest_first (select p xs)) past.0)
      | inr miss ↦ rw (miss, rest) refl
    ]

-- The row that `Create` writes.
abbrev pub new_message : Uuid → (role content : String) → (is_error : Bool) → World → ChatMessage
new_message user_id role content is_error w = record {
  id = w.drawn;
  user_id = user_id;
  role = role;
  content = content;
  is_error = is_error;
  created_at = w.now;
}

abbrev pub with_message : ChatMessage → World → World
with_message m w = record w {
  drawn = w.drawn + 1;
  tables = record w.tables { chat_messages = w.tables.chat_messages ++ m ∷ [] };
}

pub create_lem :
    (user_id : Uuid) (role content : String) (is_error : Bool) (w : World)
    → Fine w
    → any (λ u. u.id == user_id) w.tables.users ≡ true
    → (str_eq role "user" || str_eq role "assistant") ≡ true
    → create user_id role content is_error w
      ≡ (ok tt, with_message (new_message user_id role content is_error w) w)
unfolding create insert new_uuid ◌>>=◌
create_lem user_id role content is_error w fine known allowed = simp (
  statement-Fine (insert (new_message user_id role content is_error w))
      (record w { drawn = w.drawn + 1 }) fine,
  known,
  allowed,
)

pub of_user-with_message :
    (user_id : Uuid) (role content : String) (is_error : Bool) (w : World)
    → MadeBy w.now w.tables.chat_messages
    → of_user user_id (with_message (new_message user_id role content is_error w) w).tables
      ≡ of_user user_id w.tables ++ new_message user_id role content is_error w ∷ []
of_user-with_message user_id role content is_error w past =
    oldest_first-append (λ m. m.user_id == user_id) (new_message user_id role content is_error w)
      w.tables.chat_messages (==_refl user_id) past
