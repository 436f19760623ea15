-- ===== src/Net.antt =====
-- net/mod.rs, and the packet size of net/quic.rs.
pub mod Quic
use mqtt_rust_scion.Prelude.{ℕ}
use mqtt_rust_scion.Rust.{Bytes}

abbrev pub max_datagram_size : ℕ
max_datagram_size = 1200

-- A packet between two SCION addresses; `payload` is the field `data`, a reserved word here.
pub record UdpPacket (Addr : Type 0) : Type 0 where
  pub src : Addr
  pub dst : Addr
  pub payload : Bytes
