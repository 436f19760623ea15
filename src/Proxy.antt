-- ===== src/Proxy.antt =====
-- proxy/mod.rs
pub mod Token
pub mod QuicConnection
pub mod UdpConnection
pub mod System
pub mod Dispatch
pub mod Run
pub mod Lifecycle
pub mod UdpLifecycle
pub mod Setup
