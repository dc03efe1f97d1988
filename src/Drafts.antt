-- ===== src/Drafts.antt =====
-- Spec drafts: server/shared/utils/spec-draft-store.ts and the published files of
-- server/shared/utils/spec-public-state.ts.
pub mod Disk
pub mod Rows
pub mod Store
pub mod Publish
pub mod Ops
mod Tests
