-- ===== src/Proxy/Dispatch.antt =====
-- What the main task of the proxy does with a datagram: `handle_udp_packet_mode_quic` and
-- `handle_udp_packet_mode_udp` of proxy/mod.rs.
pub mod Effect
pub mod Admission
pub mod Retry
pub mod Outcomes
use mqtt_rust_scion.Prelude.{
  ℕ, Bool, true, false, not, Option, none, some, List, [], ◌∷◌, length, if◌then◌else◌, ◌==◌, nat_eq,
  list_eq, Eq,
}
use mqtt_rust_scion.Prelude.Maps.{HashMap, get, insert, remove}
use mqtt_rust_scion.Rust.{Bytes, SocketAddr, Run, done, panic, slice_to, message, foreign}
use mqtt_rust_scion.Exec.{Exec, ◌>>=◌, ◌>>◌, pure, gets, ok_or, modify}
use mqtt_rust_scion.Net.{UdpPacket, max_datagram_size}
use mqtt_rust_scion.Extern.Quiche.{Header, PacketType, initial, max_conn_id_len}
use mqtt_rust_scion.Extern.Runtime.{TrySend, sent, full, closed}
use mqtt_rust_scion.Extern.Crates.{Crates}
use mqtt_rust_scion.Proxy.Token.{mint_token, validate_token}
use mqtt_rust_scion.Proxy.QuicConnection
use mqtt_rust_scion.Proxy.UdpConnection
use mqtt_rust_scion.Proxy.System.{
  ConnectionInfo, ProxyConfig, Proxy, System, on_world, lift, client_channel_capacity,
}

abbrev pub is_initial : PacketType → Bool
is_initial initial = true
is_initial _ = false

abbrev pub or_else {ℓ} : {A : Type ℓ} → Option A → Option A → Option A
or_else (some a) b = some a
or_else none b = b

-- `scid.copy_from_slice(&conn_id)` into an array of `len` bytes, which panics on another length.
unfoldable pub copy_from_slice : ℕ → Bytes → Run Bytes
copy_from_slice len bytes = if length bytes == len then done bytes else panic

-- A received datagram with its addresses and the channel to the main task.
pub record Datagram (A C : Type 0) : Type 0 where
  pub buf : Bytes
  pub src_ip_socket : SocketAddr
  pub src_scion_socket : A
  pub local_ip_socket : SocketAddr
  pub local_scion_socket : A
  pub tx_quic_to_udp : C

module _ (x : Crates) where
  instance abbrev scion_eq : Eq x.ScionAddr
  scion_eq = x.addr_eq

  abbrev pub Received : Type 0
  Received = Datagram x.ScionAddr x.Channel

  -- The connection ID that the proxy derives from the one that a client chose.
  unfoldable pub derive_conn_id : x.Key → Bytes → Run Bytes
  derive_conn_id seed dcid = slice_to (x.sign seed dcid) max_conn_id_len

  -- A packet for a connection goes to its task; it is dropped if the channel is full, and the task
  -- is cancelled if the channel is closed.
  unfoldable pub forward : ConnectionInfo x → UdpPacket x.ScionAddr → Exec (System x) (Unit {0})
  forward client_conn packet = do
    result ← on_world x (x.try_send client_conn.sender packet)
    elim result [
      | sent ↦ pure tt
      | full ↦ pure tt
      | closed ↦ modify (λ s. record s { world = x.cancel client_conn.cancel_token s.world })
    ]

  abbrev pub incoming : Received → UdpPacket x.ScionAddr
  incoming d = record { src = d.src_scion_socket; dst = d.local_scion_socket; payload = d.buf }

  -- A stateless answer of the main task to itself, dropped if the channel is full or closed.
  unfoldable pub answer : Received → Bytes → Exec (System x) (Unit {0})
  answer d out = do
    result ← on_world x (
        x.try_send d.tx_quic_to_udp
          (record { src = d.local_scion_socket; dst = d.src_scion_socket; payload = out }))
    pure tt

  unfoldable pub negotiate : Received → Header → Exec (System x) (Unit {0})
  negotiate d hdr = do
    out ← ok_or (x.negotiate_version hdr.scid hdr.dcid max_datagram_size) foreign
    answer d out

  unfoldable pub stateless_retry : Received → Header → Bytes → Exec (System x) (Unit {0})
  stateless_retry d hdr scid = do
    key ← gets (λ s. s.token_key)
    let new_token = mint_token x.hmac key hdr d.src_ip_socket
    out ←
        ok_or (x.retry_packet hdr.scid hdr.dcid scid new_token hdr.version max_datagram_size)
          foreign
    answer d out

  -- The table entry and the task of a new connection.
  unfoldable pub spawn_quic : Received → Bytes → x.Conn → Exec (System x) (Unit {0})
  spawn_quic d scid conn = do
    cancel_token ← on_world x x.new_token
    channel ← on_world x (x.channel client_channel_capacity)
    modify λ s.
        let config : QuicConnection.Config x = record {
          local_isd_as = x.isd_asn d.local_scion_socket;
          remote_isd_as = x.isd_asn d.src_scion_socket;
          mqtt_broker_address = s.config.mqtt_broker_address;
        } in
        let task = QuicConnection.new x config conn channel d.tx_quic_to_udp cancel_token s.world in
        let info : ConnectionInfo x = record { sender = channel; cancel_token = cancel_token } in
        record s {
          proxy = record s.proxy { quic_connections = insert s.quic_connections scid info };
          quic_tasks = (scid, task) ∷ s.quic_tasks;
        }

  abbrev pub on_quic_config : {A : Type 0} → (x.Config → A × x.Config) → Exec (System x) A
  on_quic_config f s =
      let (a, c) = f s.quic_config in
      pure a (record s { proxy = record s.proxy { quic_config = c } })

  -- The packet that follows a Retry, with a token that was valid.
  unfoldable pub accept_connection : Received → Header → Bytes → Exec (System x) (Unit {0})
  accept_connection d hdr odcid = do
    accepted ← on_quic_config (x.accept hdr.dcid (some odcid) d.local_ip_socket d.src_ip_socket)
    elim accepted [
      | none ↦ pure tt
      | some conn ↦
          let (processed, conn') =
            x.recv d.buf (record { from = d.src_ip_socket; to = d.local_ip_socket }) conn in
          if processed then spawn_quic d hdr.dcid conn' else pure tt
    ]

  unfoldable pub check_token : Received → Header → Bytes → Bytes → Exec (System x) (Unit {0})
  check_token d hdr scid token = do
    key ← gets (λ s. s.token_key)
    odcid ← lift (validate_token x.hmac key d.src_ip_socket token)
    elim odcid [
      | none ↦ pure tt
      | some id ↦ if length scid == length hdr.dcid then accept_connection d hdr id else pure tt
    ]

  unfoldable pub handle_initial : Received → Header → Bytes → Exec (System x) (Unit {0})
  handle_initial d hdr conn_id =
      if not (x.version_is_supported hdr.version) then negotiate d hdr else do
        scid ← lift (copy_from_slice max_conn_id_len conn_id)
        token ← ok_or hdr.token (message "Token should be available.")
        if token == [] then stateless_retry d hdr scid else check_token d hdr scid token

  unfoldable pub dispatch_header : Received → Header → Exec (System x) (Unit {0})
  dispatch_header d hdr = do
    seed ← gets (λ s. s.conn_id_seed)
    conn_id ← lift (derive_conn_id seed hdr.dcid)
    table ← gets (λ s. s.quic_connections)
    elim (or_else (get table hdr.dcid) (get table conn_id)) [
      | some client_conn ↦ forward client_conn (incoming d)
      | none ↦ if is_initial hdr.ty then handle_initial d hdr conn_id else pure tt
    ]

  unfoldable pub handle_udp_packet_mode_quic : Received → Exec (System x) (Unit {0})
  handle_udp_packet_mode_quic d = elim (x.from_slice d.buf max_conn_id_len) [
    | none ↦ pure tt
    | some hdr ↦ dispatch_header d hdr
  ]

  unfoldable pub spawn_udp : Received → Exec (System x) (Unit {0})
  spawn_udp d = do
    cancel_token ← on_world x x.new_token
    channel ← on_world x (x.channel client_channel_capacity)
    modify λ s.
        let config : UdpConnection.Config x = record {
          local_proxy_addr = d.local_scion_socket;
          remote_client_addr = d.src_scion_socket;
          mqtt_broker_address = s.config.mqtt_broker_address;
        } in
        let task = UdpConnection.new x config channel d.tx_quic_to_udp cancel_token in
        let info : ConnectionInfo x = record { sender = channel; cancel_token = cancel_token } in
        record s {
          proxy = record s.proxy {
            udp_connections = insert s.udp_connections d.src_scion_socket info;
          };
          udp_tasks = (d.src_scion_socket, task) ∷ s.udp_tasks;
        }

  unfoldable pub handle_udp_packet_mode_udp : Received → Exec (System x) (Unit {0})
  handle_udp_packet_mode_udp d = do
    table ← gets (λ s. s.udp_connections)
    elim (get table d.src_scion_socket) [
      | some client_conn ↦ forward client_conn (incoming d)
      | none ↦ spawn_udp d
    ]
