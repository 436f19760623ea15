-- ===== src/Client.antt =====
-- client/mod.rs
pub mod Connection
pub mod Setup
pub mod Api
pub mod Exchange
