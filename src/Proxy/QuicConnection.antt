-- ===== src/Proxy/QuicConnection.antt =====
-- proxy/connection_mode_quic.rs: the task of one client in the mode `QuicEndpoint`. It ends the
-- QUIC connection of the client and relays stream 0 to a TCP connection to the broker, both ways.
pub mod Links
pub mod Relay
pub mod Delivery
pub mod Flush
use mqtt_rust_scion.Prelude.{
  ℕ, zero, suc, ◌-◌, Bool, true, false, not, Option, none, some, List, [], ◌∷◌, ltb, if◌then◌else◌,
  ◌==◌, nat_eq,
}
use mqtt_rust_scion.Rust.{Bytes, ascii, SocketAddr, message, foreign}
use mqtt_rust_scion.Exec.{Exec, ◌>>=◌, ◌>>◌, pure, out_of_fuel, gets, ok_or, unwrap, modify, check}
use mqtt_rust_scion.Net.{UdpPacket, max_datagram_size}
use mqtt_rust_scion.Extern.Quiche.{Sent, packet, finished, failed}
use mqtt_rust_scion.Extern.Runtime.{eof, received, would_block}
use mqtt_rust_scion.Extern.Runtime
use mqtt_rust_scion.Extern.Crates.{Crates}

-- The branches of the `select!` of the main loop, with what the awaited call returned.
pub data Event (A : Type 0) : Type 0 where
  timed_out : Event A
  keepalive_tick : Event A
  udp_packet : Option (UdpPacket A) → Event A
  tcp_readable : Bool → Event A
  cancelled : Event A

-- How a branch of the `select!` ends: at its end, by `continue`, by `break`.
pub data Flow : Type 0 where
  next continue exit : Flow

-- 5 seconds, in nanoseconds
abbrev pub client_cert_deadline : ℕ
client_cert_deadline = 5_000_000_000

module _ (x : Crates) where
  pub record Config : Type 0 where
    pub local_isd_as : x.IsdAsn
    pub remote_isd_as : x.IsdAsn
    pub mqtt_broker_address : SocketAddr

  pub record Connection : Type 0 where
    pub config : Config
    pub conn : x.Conn
    pub tcp_stream : Option x.TcpStream
    pub rx_udp_to_quic : x.Channel
    pub tx_quic_to_udp : x.Channel
    pub cancel_token : x.CancelToken
    pub client_cert_timer : ℕ

  -- The task and the world that it acts on.
  pub record Task : Type 0 where
    pub connection : Connection
    pub open connection use *
    pub world : x.World

  unfoldable pub new :
      Config → x.Conn → x.Channel → x.Channel → x.CancelToken → x.World → Connection
  new config conn rx_udp_to_quic tx_quic_to_udp cancel_token world = record {
    config = config;
    conn = conn;
    tcp_stream = none;
    rx_udp_to_quic = rx_udp_to_quic;
    tx_quic_to_udp = tx_quic_to_udp;
    cancel_token = cancel_token;
    client_cert_timer = x.now world;
  }

  abbrev pub with_conn : Task → x.Conn → Task
  with_conn t c = record t { connection = record t.connection { conn = c } }

  -- A call of `self.conn`, and a call that acts on the world.
  abbrev pub on_conn : {A : Type 0} → (x.Conn → A × x.Conn) → Exec Task A
  on_conn f t = let (a, c) = f t.conn in pure a (with_conn t c)

  abbrev pub on_world : {A : Type 0} → (x.World → A × x.World) → Exec Task A
  on_world f t = let (a, w) = f t.world in pure a (record t { world = w })

  -- `self.conn.close(true, code, reason)?`
  abbrev pub close_conn : ℕ → Bytes → Exec Task (Unit {0})
  close_conn code reason = do closed ← on_conn (x.close code reason); check closed foreign

  abbrev pub to_udp : Connection → Bytes → SocketAddr → SocketAddr → UdpPacket x.ScionAddr
  to_udp c bytes from to = record {
    src = x.from_std c.config.local_isd_as from;
    dst = x.from_std c.config.remote_isd_as to;
    payload = bytes;
  }

  -- The loops that hand what QUIC has to send to the main task, until `Done` or an error.
  unfoldable pub send_pending : ℕ → Exec Task (Unit {0})
  send_pending zero = out_of_fuel
  send_pending (suc fuel) = do
    sent ← on_conn (x.send max_datagram_size)
    elim sent [
      | finished ↦ pure tt
      | failed ↦ pure tt
      | packet bytes from to ↦ do
        self ← gets (λ t. t.connection)
        delivered ← on_world (x.send_wait self.tx_quic_to_udp (to_udp self bytes from to))
        check delivered foreign
        send_pending fuel
    ]

  unfoldable pub connect_broker : Exec Task (Unit {0})
  connect_broker = do
    self ← gets (λ t. t.connection)
    stream ← on_world (x.tcp_connect self.config.mqtt_broker_address)
    elim stream [
      | some s ↦ modify (λ t. record t { connection = record t.connection { tcp_stream = some s } })
      | none ↦ do
        close_conn 0x102 (ascii "failed to connect to MQTT broker")
        modify (λ t. record t { connection = record t.connection { tcp_stream = none } })
    ]

  -- What is done with the bytes that were read from a stream.
  unfoldable pub relay : ℕ → Bytes → Exec Task (Unit {0})
  relay stream_id bytes =
      if stream_id == 0
      then (do
        self ← gets (λ t. t.connection)
        stream ← unwrap self.tcp_stream
        written ← on_world (x.write_all stream bytes)
        check written foreign)
      else pure tt

  -- `while let Ok((read, _)) = self.conn.stream_recv(stream_id, &mut buf)`
  unfoldable pub drain_stream : ℕ → ℕ → Exec Task (Unit {0})
  drain_stream zero stream_id = out_of_fuel
  drain_stream (suc fuel) stream_id = do
    chunk ← on_conn (x.stream_recv stream_id max_datagram_size)
    elim chunk [
      | none ↦ pure tt
      | some bytes ↦ do relay stream_id bytes; drain_stream fuel stream_id
    ]

  -- `for stream_id in self.conn.readable()`
  unfoldable pub read_streams : ℕ → List ℕ → Exec Task (Unit {0})
  read_streams fuel [] = pure tt
  read_streams fuel (stream_id ∷ rest) = do drain_stream fuel stream_id; read_streams fuel rest

  -- A client that has shown no certificate is cut off after the deadline.
  unfoldable pub await_client_cert : Exec Task (Unit {0})
  await_client_cert = do
    late ← gets (λ t. ltb client_cert_deadline (x.now t.world - t.client_cert_timer))
    if late then close_conn 0x100 (ascii "no client certificate") else pure tt

  -- What `process_udp_packet` does once QUIC has taken the packet.
  unfoldable pub after_recv : ℕ → Exec Task (Unit {0})
  after_recv fuel = do
    conn ← gets (λ t. t.conn)
    if not (x.has_peer_cert conn)
        then await_client_cert
        else if x.is_established conn
        then read_streams fuel (x.readable conn)
        else pure tt

  unfoldable pub process_udp_packet : ℕ → UdpPacket x.ScionAddr → Exec Task (Unit {0})
  process_udp_packet fuel p = do
    src_ip_addr ← ok_or (x.local_address p.src) (message "Invalid src address.")
    dst_ip_addr ← ok_or (x.local_address p.dst) (message "Invalid dst address.")
    accepted ← on_conn (x.recv p.payload (record { from = src_ip_addr; to = dst_ip_addr }))
    check accepted foreign
    after_recv fuel

  unfoldable pub on_tcp_readable : Bool → Exec Task Flow
  on_tcp_readable false = do close_conn 0x101 (ascii "TCP stream to broker error"); pure next
  on_tcp_readable true = do
    self ← gets (λ t. t.connection)
    stream ← unwrap self.tcp_stream
    result ← on_world (x.try_read stream max_datagram_size)
    elim result [
      | eof ↦ do close_conn 0x101 (ascii "TCP stream to broker closed by peer"); pure next
      | received bytes ↦ do taken ← on_conn (x.stream_send 0 bytes); ok_or taken foreign; pure next
      | would_block ↦ pure continue
      | Runtime.failed ↦ do
        close_conn 0x101 (ascii "Failed to read from TCP stream to broker")
        pure next
    ]

  unfoldable pub select : ℕ → Event x.ScionAddr → Exec Task Flow
  select fuel timed_out = do modify (λ t. with_conn t (x.on_timeout t.conn)); pure next
  select fuel keepalive_tick = do
    established ← gets (λ t. x.is_established t.conn)
    if established
        then (do sent ← on_conn x.send_ack_eliciting; check sent foreign; pure next)
        else pure next
  select fuel (udp_packet none) = pure exit
  select fuel (udp_packet (some p)) = do process_udp_packet fuel p; pure next
  select fuel (tcp_readable ready) = on_tcp_readable ready
  select fuel cancelled = pure exit

  -- What follows the `select!`; `true` is another round of the loop.
  unfoldable pub after_select : ℕ → Flow → Exec Task Bool
  after_select fuel continue = pure true
  after_select fuel exit = pure false
  after_select fuel next = do
    closed ← gets (λ t. x.is_closed t.conn)
    if closed then pure false else do send_pending fuel; pure true

  unfoldable pub round : ℕ → Event x.ScionAddr → Exec Task Bool
  round fuel event = do flow ← select fuel event; after_select fuel flow

  unfoldable pub main_loop : ℕ → List (Event x.ScionAddr) → Exec Task Bool
  main_loop fuel [] = pure true
  main_loop fuel (event ∷ events) = do
    again ← round fuel event
    elim again [ true ↦ main_loop fuel events | false ↦ pure false ]

  -- `false`: the handler has returned; `true`: it waits for the next event.
  unfoldable pub handle_client_connection : ℕ → List (Event x.ScionAddr) → Exec Task Bool
  handle_client_connection fuel events = do send_pending fuel; connect_broker; main_loop fuel events
