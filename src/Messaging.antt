-- ===== src/Messaging.antt =====
-- crates/variance-messaging: receipts, typing indicators and messages for users who are offline.
pub mod Errors
pub mod Proto
pub mod Receipts
pub mod Typing
pub mod Storage
pub mod Olm
pub mod Direct
pub mod OpenMls
pub mod Groups
pub mod Offline
