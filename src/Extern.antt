-- ===== src/Extern.antt =====
-- The crates that the program calls, as interfaces.
pub mod Ring
pub mod Scion
pub mod Quiche
pub mod Runtime
pub mod Crates
pub mod Mqtt
pub mod ClientCrates
pub mod QuicConfig
pub mod Host
