-- ===== src/P2p.antt =====
-- crates/variance-p2p: what a node does with requests of remote peers.
pub mod Float
pub mod RateLimiter
pub mod PeerStore
pub mod IdentityHandler
