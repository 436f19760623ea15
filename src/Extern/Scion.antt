-- ===== src/Extern/Scion.antt =====
-- `scion_proto::address`: SCION socket addresses and the ISD-AS that they lie in.
use mqtt_rust_scion.Prelude.{Option, Eq}
use mqtt_rust_scion.Rust.{SocketAddr}

pub record ScionProto : Type 1 where
  pub ScionAddr : Type 0
  pub addr_eq : Eq ScionAddr
  pub IsdAsn : Type 0
  pub isd_asn_eq : Eq IsdAsn
  pub isd_asn : ScionAddr → IsdAsn
  -- `None` for a service address
  pub local_address : ScionAddr → Option SocketAddr
  pub from_std : IsdAsn → SocketAddr → ScionAddr
