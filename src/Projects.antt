-- ===== src/Projects.antt =====
-- Projects, their members and the gate in front of their routes
-- (server/shared/utils/project-store.ts, server/shared/middleware/project-access.ts and the member
-- handlers).
pub mod Rows
pub mod Store
pub mod Gate
pub mod Handlers
pub mod Listing
pub mod Leaving
pub mod Joining
mod Tests
