-- ===== src/Proxy/QuicConnection/Flush.antt =====
-- connection_mode_quic.rs, the loops on `send`: what a task hands to the main task to be sent.
use mqtt_rust_scion.Prelude.{ℕ, zero, suc, ◌≡◌, false, List, [], ◌∷◌, ◌++◌}
use mqtt_rust_scion.Rust.{Bytes, SocketAddr}
use mqtt_rust_scion.Net.{UdpPacket, max_datagram_size}
use mqtt_rust_scion.Extern.Quiche.{packet, finished, failed, QuicheLaws}
use mqtt_rust_scion.Extern.Runtime.{ChannelLaws}
use mqtt_rust_scion.Extern.Crates.{Crates}
use mqtt_rust_scion.Proxy.QuicConnection.{Connection, Task, to_udp}

module _ (x : Crates) where
  -- The packets that QUIC gives out, up to the first call that gives none, as the task `c` addresses
  -- them.
  pub outgoing : ℕ → Connection x → x.Conn → List (UdpPacket x.ScionAddr)
  outgoing zero c conn = []
  outgoing (suc fuel) c conn =
      let (sent, conn') = x.send max_datagram_size conn in
      elim sent [
        | packet bytes from to ↦ to_udp x c bytes from to ∷ outgoing fuel c conn'
        | finished ↦ []
        | failed ↦ []
      ]

  -- The state of the task once QUIC has given out a packet and the main task has it.
  abbrev after_packet : Task x → Bytes → SocketAddr → SocketAddr → Task x
  after_packet t bytes from to =
      let p = to_udp x t.connection bytes from to in
      record {
        connection = record t.connection { conn = (x.send max_datagram_size t.conn).1 };
        world = (x.send_wait t.tx_quic_to_udp p t.world).1;
      }

  module _ (quic : QuicheLaws x.quiche) (laws : ChannelLaws x.runtime) where
    -- Of the packets `all` those in `done` stand in the channel `c` since the world `before`; the main
    -- task was gone when the next was sent, which led to the world `after`.
    pub record CutOff (c : x.Channel) (before : x.World) (all : List (UdpPacket x.ScionAddr))
        (after : x.World) : Type 0 where
      pub done : List (UdpPacket x.ScionAddr)
      pub packet : UdpPacket x.ScionAddr
      pub rest : List (UdpPacket x.ScionAddr)
      pub world : x.World
      pub parts : all ≡ done ++ (packet ∷ rest)
      pub queued : laws.sent_to c world ≡ laws.sent_to c before ++ done
      pub gone : (x.send_wait c packet world).0 ≡ false
      pub left : after ≡ (x.send_wait c packet world).1
