-- ===== src/Accounts.antt =====
-- Users of the platform: their sign-in, the settings that govern registration, and what a platform
-- admin does to them (server/shared/middleware/auth.ts, platform-settings.ts, platform-admin-auth.ts
-- of server/shared/utils, and the handlers under server/admin/api/admin).
pub mod Rows
pub mod Settings
pub mod SignIn
pub mod Admin
pub mod Registration
pub mod Ops
pub mod Histories
mod Tests
