-- ===== src/Proxy/UdpConnection.antt =====
-- proxy/connection_mode_udp.rs: the task of one client in the mode `UdpEndpoint`. It carries UDP
-- packets between the client, over SCION, and the broker, over IP.
pub mod Addressing
use mqtt_rust_scion.Prelude.{
  ℕ, Bool, true, false, not, Option, none, some, List, [], ◌∷◌, if◌then◌else◌, ◌==◌, Eq,
}
use mqtt_rust_scion.Rust.{Bytes, SocketAddr, foreign}
use mqtt_rust_scion.Exec.{Exec, ◌>>=◌, ◌>>◌, pure, gets, ok_or, unwrap, modify, check}
use mqtt_rust_scion.Net.{UdpPacket}
use mqtt_rust_scion.Extern.Crates.{Crates}

-- The branches of the `select!`, with what the awaited call returned. `broker_packet (some (b, a))`
-- is a datagram from the address `a` of which `recv_from` wrote `b` to the buffer.
pub data Event (A : Type 0) : Type 0 where
  timed_out : Event A
  udp_packet : Option (UdpPacket A) → Event A
  broker_packet : Option (Bytes × SocketAddr) → Event A
  cancelled : Event A

module _ (x : Crates) where
  instance abbrev scion_eq : Eq x.ScionAddr
  scion_eq = x.addr_eq

  pub record Config : Type 0 where
    pub local_proxy_addr : x.ScionAddr
    pub remote_client_addr : x.ScionAddr
    pub mqtt_broker_address : SocketAddr

  pub record Connection : Type 0 where
    pub config : Config
    pub udp_socket : Option x.UdpSocket
    pub rx_udp_to_quic : x.Channel
    pub tx_quic_to_udp : x.Channel
    pub cancel_token : x.CancelToken

  pub record Task : Type 0 where
    pub connection : Connection
    pub open connection use *
    pub world : x.World

  unfoldable pub new : Config → x.Channel → x.Channel → x.CancelToken → Connection
  new config rx_udp_to_quic tx_quic_to_udp cancel_token = record {
    config = config;
    udp_socket = none;
    rx_udp_to_quic = rx_udp_to_quic;
    tx_quic_to_udp = tx_quic_to_udp;
    cancel_token = cancel_token;
  }

  abbrev pub on_world : {A : Type 0} → (x.World → A × x.World) → Exec Task A
  on_world f t = let (a, w) = f t.world in pure a (record t { world = w })

  abbrev pub with_client : x.ScionAddr → Task → Task
  with_client addr t = record t {
    connection = record t.connection { config = record t.config { remote_client_addr = addr } };
  }

  unfoldable pub bind_socket : Exec Task (Unit {0})
  bind_socket = do
    bound ← on_world x.udp_bind
    socket ← ok_or bound foreign
    modify (λ t. record t { connection = record t.connection { udp_socket = some socket } })

  -- A packet of the client goes to the broker; the client is remembered at its latest address.
  unfoldable pub to_broker : UdpPacket x.ScionAddr → Exec Task (Unit {0})
  to_broker packet = do
    self ← gets (λ t. t.connection)
    if packet.src == self.config.remote_client_addr
        then pure tt
        else modify (with_client packet.src)
    socket ← unwrap self.udp_socket
    sent ← on_world (x.udp_send_to socket packet.payload self.config.mqtt_broker_address)
    check sent foreign

  -- A datagram of the socket goes to the client.
  unfoldable pub to_client : Bytes → Exec Task (Unit {0})
  to_client bytes = do
    self ← gets (λ t. t.connection)
    let packet : UdpPacket x.ScionAddr = record {
      src = self.config.local_proxy_addr;
      dst = self.config.remote_client_addr;
      payload = bytes;
    }
    sent ← on_world (x.send_wait self.tx_quic_to_udp packet)
    check sent foreign

  -- One round of the loop; `true` is another round.
  unfoldable pub round : Event x.ScionAddr → Exec Task Bool
  round timed_out = pure false
  round (udp_packet none) = pure false
  round (udp_packet (some packet)) = do to_broker packet; pure true
  round (broker_packet none) = pure true
  round (broker_packet (some (bytes, src_addr))) = do to_client bytes; pure true
  round cancelled = pure false

  unfoldable pub main_loop : List (Event x.ScionAddr) → Exec Task Bool
  main_loop [] = pure true
  main_loop (event ∷ events) = do
    again ← round event
    elim again [ true ↦ main_loop events | false ↦ pure false ]

  -- `false`: the handler has returned; `true`: it waits for the next event.
  unfoldable pub handle_client_connection : List (Event x.ScionAddr) → Exec Task Bool
  handle_client_connection events = do bind_socket; main_loop events
