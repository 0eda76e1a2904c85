-- ===== src/Identity.antt =====
-- crates/variance-identity: DIDs and user names.
pub mod Errors
pub mod Did
pub mod Cache
pub mod Username
pub mod Protocol
