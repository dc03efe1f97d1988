-- ===== src/Orgs.antt =====
-- Organisations: server/shared/utils/org-store.ts, org-permissions-store.ts and org-auth.ts, over
-- the tables of server/shared/database/schema.ts.
pub mod Rows
pub mod Slug
pub mod Create
pub mod Members
pub mod Invites
pub mod Permissions
pub mod Auth
pub mod Roles
pub mod Lookups
pub mod Ops
pub mod Owner
pub mod Grants
pub mod History
pub mod Effects
pub mod Redeem
pub mod Redeemed
pub mod Removed
pub mod Access
mod Tests
