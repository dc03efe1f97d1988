-- ===== src/Extensions.antt =====
-- The extensions of an org: server/shared/utils/org-extensions-store.ts.
pub mod Rows
pub mod Store
pub mod Adding
pub mod Installing
pub mod Refusals
pub mod Outcomes
mod Tests
