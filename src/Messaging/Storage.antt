-- ===== src/Messaging/Storage.antt =====
-- crates/variance-messaging/src/storage: what the messages are kept in.
pub mod Io
pub mod Sled
pub mod Sample
pub mod Contents
mod Tests
pub mod Keys
pub mod Entries
pub mod RemoveAll
pub mod Direct
pub mod Pending
pub mod Group
pub mod GroupState
pub mod Receipts
pub mod Invitations
pub mod Offline
