-- ===== src/Capabilities.antt =====
-- What agents may do: src/core/capability-gate.js, and the approvals of
-- src/core/capability-approval-service.js.
pub mod Gate
pub mod Grants
pub mod Approvals
pub mod Answers
mod Tests
