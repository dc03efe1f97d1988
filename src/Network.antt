-- ===== src/Network.antt =====
-- The allocator of the orgs' bridge subnets, server/shared/utils/bridge-subnet-allocator.ts.
pub mod Cidr
pub mod Allocator
mod Tests
