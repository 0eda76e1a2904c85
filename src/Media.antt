-- ===== src/Media.antt =====
-- crates/variance-media: calls, and the signed messages that set them up.
pub mod Proto
pub mod Errors
pub mod WebRtc
pub mod Call
pub mod Signaling
