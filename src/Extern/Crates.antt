-- ===== src/Extern/Crates.antt =====
-- The crates that the proxy is built on.
use mqtt_rust_scion.Net.{UdpPacket}
use mqtt_rust_scion.Extern.Ring.{Hmac}
use mqtt_rust_scion.Extern.Scion.{ScionProto}
use mqtt_rust_scion.Extern.Quiche.{Quiche}
use mqtt_rust_scion.Extern.Runtime.{Runtime}

pub record Crates : Type 1 where
  pub hmac : Hmac
  pub open hmac use *
  pub scion : ScionProto
  pub open scion use *
  pub quiche : Quiche
  pub open quiche use *
  pub runtime : Runtime scion.ScionAddr (UdpPacket scion.ScionAddr)
  pub open runtime use *
