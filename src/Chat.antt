-- ===== src/Chat.antt =====
-- The chat: internal/handler/chat.go, chat_tools.go and chat_support.go, and the loop of
-- internal/provider/llm/agent.go.
pub mod Pending
pub mod Answers
pub mod Tools
pub mod Banks
pub mod Reads
pub mod Dispatch
pub mod Agent
pub mod History
pub mod Toolbox
pub mod Wording
pub mod Prompt
pub mod Messages
pub mod Confirm
