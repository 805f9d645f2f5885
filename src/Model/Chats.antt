-- ===== src/Model/Chats.antt =====
-- internal/model/chat_message.go
use weave_server.Prelude.{ℕ, String, Bool}
use weave_server.Model.Wallets.{Uuid}

-- The role is "user" or "assistant".
pub record ChatMessage : Type 0 where
  pub id : Uuid
  pub user_id : Uuid
  pub role : String
  pub content : String
  pub is_error : Bool
  pub created_at : ℕ
