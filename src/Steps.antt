-- ===== src/Steps.antt =====
-- The steps of a project's workflow: src/core/step-state.js and the lock of app/utils/steps.ts.
pub mod Store
pub mod Stale
mod Tests
