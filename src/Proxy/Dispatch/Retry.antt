-- ===== src/Proxy/Dispatch/Retry.antt =====
-- The exchange that leads a new client to a connection: its first packet, the Retry of the proxy,
-- its second packet, and what becomes of packets that still carry the first connection ID.
use mqtt_rust_scion.Prelude.{
  ◌≡◌, refl, ap, ap₂, ◌∙◌, true, false, none, some, [], length, take, arith, ◌==◌, nat_eq, list_eq,
  beq_refl,
}
use mqtt_rust_scion.Prelude.Maps.{get, get-insert}
use mqtt_rust_scion.Rust.{Bytes, SocketAddr, done, ok}
use mqtt_rust_scion.Net.{UdpPacket, max_datagram_size}
use mqtt_rust_scion.Extern.Runtime.{TrySend, sent, full, closed}
use mqtt_rust_scion.Extern.Ring.{Hmac, HmacLaws}
use mqtt_rust_scion.Extern.Quiche.{Header, initial, max_conn_id_len}
use mqtt_rust_scion.Extern.Crates.{Crates}
use mqtt_rust_scion.Proxy.Token.{token_prefix, mint_token, validate_token}
use mqtt_rust_scion.Proxy.Token.Validity.{validate_token-mint_token}
use mqtt_rust_scion.Proxy.System.{ConnectionInfo, System}
use mqtt_rust_scion.Proxy.Dispatch.{
  Received, or_else, forward, incoming, answer, stateless_retry, accept_connection, check_token,
  handle_udp_packet_mode_quic,
}
use mqtt_rust_scion.Proxy.Dispatch.Effect.{
  Spawned, accepted_by, processed_by, accept_connection-Spawned, handle_initial-token,
}
use mqtt_rust_scion.Proxy.Dispatch.Admission.{
  route, length-derived, handle_quic-initial, handle_quic-known,
}

mint_token-IsNonempty :
    (h : Hmac) (key : h.Key) (hdr : Header) (src : SocketAddr)
    → (mint_token h key hdr src == []) ≡ false
unfolding mint_token token_prefix
mint_token-IsNonempty h key hdr src = refl

module _ (x : Crates) (laws : HmacLaws x.hmac) where
  -- The ID that the proxy puts in its Retry: `&hmac::sign(&self.conn_id_seed, dcid)[..20]`.
  abbrev pub retry_id : System x → Header → Bytes
  retry_id s hdr = take max_conn_id_len (x.sign s.conn_id_seed hdr.dcid)

  -- An Initial packet of a supported version whose connection the proxy does not know.
  pub record IsFresh (d : Received x) (s : System x) (hdr : Header) : Type 0 where
    pub parsed : x.from_slice d.buf max_conn_id_len ≡ some hdr
    pub is_first : hdr.ty ≡ initial
    pub supported : x.version_is_supported hdr.version ≡ true
    pub unknown : route x laws s hdr ≡ none

  -- An Initial packet of a supported version, with an empty token and of a connection that the
  -- proxy does not know, is answered, where quiche can write it, by a Retry with a token for the
  -- address of its source: the main task hands itself this Retry from the proxy's own address, for the
  -- source of the packet, unless its channel is full or closed. Nothing else is done.
  pub handle_quic-retry :
      (d : Received x) (s : System x) (hdr : Header) (out : Bytes)
      → IsFresh d s hdr
      → hdr.token ≡ some []
      → x.retry_packet hdr.scid hdr.dcid
          (retry_id s hdr)
          (mint_token x.hmac s.token_key hdr d.src_ip_socket)
          hdr.version
          max_datagram_size
        ≡ some out
      → let retry : UdpPacket x.ScionAddr = record {
        src = d.local_scion_socket;
        dst = d.src_scion_socket;
        payload = out;
      } in
        handle_udp_packet_mode_quic x d s
        ≡ (ok tt, record s { world = (x.try_send d.tx_quic_to_udp retry s.world).1 })
  unfolding stateless_retry answer
  handle_quic-retry d s hdr out fresh empty written =
      handle_quic-initial x laws d s hdr fresh.parsed fresh.unknown fresh.is_first
      ∙ handle_initial-token x d hdr (retry_id s hdr) [] s fresh.supported
          (length-derived x laws s.conn_id_seed hdr.dcid) empty
      ∙ ground arith

  -- A token that was minted for a packet `d` is accepted from the same IP address, whatever was
  -- done in between with the token key kept: the Initial packet that brings it, of an unknown
  -- connection and with an ID of 20 bytes, creates the connection if quiche accepts it and takes
  -- the packet. Its original connection ID is the one of `d`.
  pub handle_quic-retried :
      (d d' : Received x) (s s' : System x) (hdr hdr' : Header) {conn : x.Conn}
      → s'.token_key ≡ s.token_key
      → d'.src_ip_socket.ip ≡ d.src_ip_socket.ip
      → IsFresh d' s' hdr'
      → hdr'.token ≡ some (mint_token x.hmac s.token_key hdr d.src_ip_socket)
      → length hdr'.dcid ≡ max_conn_id_len
      → accepted_by x d' hdr' hdr.dcid s' ≡ some conn
      → (processed_by x d' conn).0 ≡ true
      → let (outcome, t) = handle_udp_packet_mode_quic x d' s' in
        (outcome ≡ ok tt) × Spawned x hdr'.dcid s' t
  unfolding check_token
  handle_quic-retried d d' s s' hdr hdr' keys ip fresh carried id_len e good =
      rw whole (accept_connection-Spawned x d' hdr' hdr.dcid s' e good)
    where
      token : Bytes
      token = mint_token x.hmac s.token_key hdr d.src_ip_socket

      valid : validate_token x.hmac s'.token_key d'.src_ip_socket token ≡ done (some hdr.dcid)
      valid = rw keys (
          validate_token-mint_token x.hmac laws s.token_key hdr d.src_ip_socket d'.src_ip_socket ip)

      by_token :
          check_token x d' hdr' (retry_id s' hdr') token s'
          ≡ accept_connection x d' hdr' hdr.dcid s'
      by_token = ground (arith, valid, length-derived x laws s'.conn_id_seed hdr'.dcid)

      whole : handle_udp_packet_mode_quic x d' s' ≡ accept_connection x d' hdr' hdr.dcid s'
      whole =
          handle_quic-initial x laws d' s' hdr' fresh.parsed fresh.unknown fresh.is_first
          ∙ handle_initial-token x d' hdr' (retry_id s' hdr') token s' fresh.supported
              (length-derived x laws s'.conn_id_seed hdr'.dcid) carried
          ∙ rw (mint_token-IsNonempty x.hmac s.token_key hdr d.src_ip_socket) by_token

  -- What becomes of a packet for a known connection.
  forward_lem :
      (info : ConnectionInfo x) (packet : UdpPacket x.ScionAddr) (t : System x)
      → let (result, w) = x.try_send info.sender packet t.world in
        forward x info packet t ≡ (
          ok tt,
          record t {
            world = elim result [ sent ↦ w | full ↦ w | closed ↦ x.cancel info.cancel_token w ];
          },
        )
  unfolding forward
  forward_lem info packet t = by_result (x.try_send info.sender packet t.world).0 refl
    where
      w : x.World
      w = (x.try_send info.sender packet t.world).1

      by_result :
          (result : TrySend)
          → result ≡ (x.try_send info.sender packet t.world).0
          → forward x info packet t ≡ (
            ok tt,
            record t {
              world = elim (x.try_send info.sender packet t.world).0 [
                | sent ↦ w
                | full ↦ w
                | closed ↦ x.cancel info.cancel_token w
              ];
            },
          )
      by_result sent e = rw⁻¹ e refl
      by_result full e = rw⁻¹ e refl
      by_result closed e = rw⁻¹ e refl

  -- Once the connection stands under the ID of the Retry, a packet that still carries the client's
  -- first connection ID goes to the same task, unless that ID has an entry of its own: it is put into
  -- the channel from which the task reads, with its source, the proxy's own address and its bytes. A
  -- full channel drops it, and where the channel is closed the task is cancelled.
  pub handle_quic-first_id :
      (d' : Received x) (s s' t : System x) (hdr hdr' : Header)
      → (new : Spawned x (retry_id s hdr) s' t) → s'.conn_id_seed ≡ s.conn_id_seed
      → x.from_slice d'.buf max_conn_id_len ≡ some hdr'
      → hdr'.dcid ≡ hdr.dcid
      → get t.quic_connections hdr.dcid ≡ none
      → let packet : UdpPacket x.ScionAddr = record {
        src = d'.src_scion_socket;
        dst = d'.local_scion_socket;
        payload = d'.buf;
      } in
        let (result, w) = x.try_send new.task.rx_udp_to_quic packet t.world in
        handle_udp_packet_mode_quic x d' t ≡ (
          ok tt,
          record t {
            world = elim result [ sent ↦ w | full ↦ w | closed ↦ x.cancel new.task.cancel_token w ];
          },
        )
  handle_quic-first_id d' s s' t hdr hdr' new seed parsed same absent =
      handle_quic-known x laws d' t hdr' _ parsed
        (ap₂ or_else own (ap (get t.quic_connections) id ∙ entry))
      ∙ forward_lem info (incoming x d') t
    where
      info : ConnectionInfo x
      info = record { sender = new.task.rx_udp_to_quic; cancel_token = new.task.cancel_token }

      own : get t.quic_connections hdr'.dcid ≡ none
      own = ap (get t.quic_connections) same ∙ absent

      id : take max_conn_id_len (x.sign t.conn_id_seed hdr'.dcid) ≡ retry_id s hdr
      id =
          ap (λ k. take max_conn_id_len (x.sign k hdr'.dcid)) (new.conn_id_seed ∙ seed)
          ∙ ap (λ c. take max_conn_id_len (x.sign s.conn_id_seed c)) same

      entry : get t.quic_connections (retry_id s hdr) ≡ some info
      entry =
          ap (λ table. get table (retry_id s hdr)) new.quic_connections
          ∙ get-insert s'.quic_connections (retry_id s hdr) (retry_id s hdr) info
          ∙ rw (beq_refl (retry_id s hdr)) refl
