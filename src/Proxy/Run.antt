-- ===== src/Proxy/Run.antt =====
-- The main loop of the proxy, `run` of proxy/mod.rs, after its set-up.
pub mod Ends
use mqtt_rust_scion.Prelude.{ℕ, Option, none, some, List, [], ◌∷◌}
use mqtt_rust_scion.Rust.{Bytes, SocketAddr, foreign}
use mqtt_rust_scion.Exec.{Exec, ◌>>=◌, ◌>>◌, pure, gets, check}
use mqtt_rust_scion.Net.{UdpPacket}
use mqtt_rust_scion.Extern.Crates.{Crates}
use mqtt_rust_scion.Proxy.System.{quic_endpoint, udp_endpoint, System, on_world}
use mqtt_rust_scion.Proxy.Dispatch.{
  Received, handle_udp_packet_mode_quic, handle_udp_packet_mode_udp,
}

-- The branches of the `select!`: a datagram of the SCION socket with its source, and a packet of the
-- channel from the connection tasks.
pub data Event (A : Type 0) : Type 0 where
  datagram : Bytes → A → Event A
  outgoing : UdpPacket A → Event A

-- What the set-up of `run` has bound.
pub record Bound (A C : Type 0) : Type 0 where
  pub local_addr : SocketAddr
  pub local_scion_addr : A
  pub tx_quic_to_udp : C

module _ (x : Crates) where
  unfoldable pub on_datagram :
      Bound x.ScionAddr x.Channel → Bytes → x.ScionAddr → SocketAddr → Exec (System x) (Unit {0})
  on_datagram b buf src src_ip_addr = do
    mode ← gets (λ s. s.config.mode)
    let d : Received x = record {
      buf = buf;
      src_ip_socket = src_ip_addr;
      src_scion_socket = src;
      local_ip_socket = b.local_addr;
      local_scion_socket = b.local_scion_addr;
      tx_quic_to_udp = b.tx_quic_to_udp;
    }
    elim mode [
      | quic_endpoint ↦ handle_udp_packet_mode_quic x d
      | udp_endpoint ↦ handle_udp_packet_mode_udp x d
    ]

  unfoldable pub round :
      Bound x.ScionAddr x.Channel → Event x.ScionAddr → Exec (System x) (Unit {0})
  round b (datagram buf src) = elim (x.local_address src) [
    | none ↦ pure tt
    | some src_ip_addr ↦ on_datagram b buf src src_ip_addr
  ]
  round b (outgoing packet) = do
    delivered ← on_world x (x.scion_send_to packet.payload packet.dst)
    check delivered foreign

  -- The loop has no `break`: it ends by an error, or waits for the next event.
  unfoldable pub main_loop :
      Bound x.ScionAddr x.Channel → List (Event x.ScionAddr) → Exec (System x) (Unit {0})
  main_loop b [] = pure tt
  main_loop b (event ∷ events) = do round b event; main_loop b events
