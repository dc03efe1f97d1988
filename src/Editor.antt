-- ===== src/Editor.antt =====
-- The draft that is being edited in the web client: app/stores/active-session.ts.
pub mod Store
pub mod Saved
pub mod Attempts
mod Tests
