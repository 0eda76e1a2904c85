-- ===== src/App.antt =====
-- crates/variance-app: the application around the crates.
pub mod RateLimit
