-- ===== src/Joltify.antt =====
-- joltifybridge: the instance of the joltify chain.
pub mod State
pub mod Outbound
pub mod Service
pub mod Signing
pub mod Membership
pub mod Queries
