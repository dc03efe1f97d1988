-- ===== src/Credentials.antt =====
-- Credentials of LLM providers and the session tokens that stand for them
-- (server/shared/utils/llm-credentials-store.ts and runner-sessions-store.ts).
pub mod Rows
pub mod Cipher
pub mod Store
pub mod Keys
pub mod Resolve
pub mod Sessions
pub mod Flow
pub mod Login
pub mod Ops
mod Tests
