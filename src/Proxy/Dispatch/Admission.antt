-- ===== src/Proxy/Dispatch/Admission.antt =====
-- Which datagrams create a connection, and how a Retry leads to one.
use mqtt_rust_scion.Prelude.{
  ◌≡◌, ◌⊎◌, inl, inr, Option, none, some, length, take, length-take, Bool-cases, Option-cases,
  arith, nat_eq, list_eq,
}
use mqtt_rust_scion.Prelude.Maps.{get}
use mqtt_rust_scion.Rust.{Bytes, done, slice_to, octets}
use mqtt_rust_scion.Extern.Ring.{HmacLaws}
use mqtt_rust_scion.Extern.Quiche.{Header, initial, max_conn_id_len}
use mqtt_rust_scion.Extern.Crates.{Crates}
use mqtt_rust_scion.Proxy.Token.Validity.{IsSigned, validate_token_iff}
use mqtt_rust_scion.Proxy.System.{ConnectionInfo, System}
use mqtt_rust_scion.Proxy.Dispatch.{
  Received, is_initial, or_else, derive_conn_id, forward, incoming, handle_initial, dispatch_header,
  handle_udp_packet_mode_quic,
}
use mqtt_rust_scion.Proxy.Dispatch.Effect.{
  SameTables, Spawned, IsAdmitted, handle_initial-Effect, forward-SameTables,
}

module _ (x : Crates) (laws : HmacLaws x.hmac) where
  pub derive_conn_id_lem :
      (seed : x.Key) (dcid : Bytes)
      → derive_conn_id x seed dcid ≡ done (take max_conn_id_len (x.sign seed dcid))
  unfolding derive_conn_id slice_to
  derive_conn_id_lem seed dcid = ground (arith, laws.length-sign seed dcid)

  pub length-derived :
      (seed : x.Key) (dcid : Bytes)
      → length (take max_conn_id_len (x.sign seed dcid)) ≡ max_conn_id_len
  length-derived seed dcid =
      omega (arith, laws.length-sign seed dcid, length-take max_conn_id_len (x.sign seed dcid))

  -- The entry that a header leads to: under its connection ID, or under the derived one.
  abbrev pub route : System x → Header → Option (ConnectionInfo x)
  route s hdr =
      or_else (get s.quic_connections hdr.dcid)
        (get s.quic_connections (take max_conn_id_len (x.sign s.conn_id_seed hdr.dcid)))

  -- A packet of a known connection is forwarded.
  pub handle_quic-known :
      (d : Received x) (s : System x) (hdr : Header) (info : ConnectionInfo x)
      → x.from_slice d.buf max_conn_id_len ≡ some hdr
      → route s hdr ≡ some info
      → handle_udp_packet_mode_quic x d s ≡ forward x info (incoming x d) s
  unfolding handle_udp_packet_mode_quic dispatch_header
  handle_quic-known d s hdr info parsed known =
      ground (arith, derive_conn_id_lem s.conn_id_seed hdr.dcid)

  pub handle_quic-initial :
      (d : Received x) (s : System x) (hdr : Header)
      → x.from_slice d.buf max_conn_id_len ≡ some hdr
      → route s hdr ≡ none
      → hdr.ty ≡ initial
      → handle_udp_packet_mode_quic x d s
        ≡ handle_initial x d hdr (take max_conn_id_len (x.sign s.conn_id_seed hdr.dcid)) s
  unfolding handle_udp_packet_mode_quic dispatch_header
  handle_quic-initial d s hdr parsed unknown first =
      ground (arith, derive_conn_id_lem s.conn_id_seed hdr.dcid)

  pub handle_quic-Effect :
      (d : Received x) (s : System x)
      → let t = (handle_udp_packet_mode_quic x d s).1 in
        SameTables x s t ⊎ ((hdr : Header) × IsAdmitted x d s hdr × Spawned x hdr.dcid s t)
  unfolding handle_udp_packet_mode_quic dispatch_header
  handle_quic-Effect d s = elim (Option-cases (x.from_slice d.buf max_conn_id_len)) [
    | inl garbage ↦ inl (ground arith)
    | inr (hdr, parsed) ↦ elim (Option-cases (route s hdr)) [
      | inr (info, known) ↦ inl (
          rw (handle_quic-known d s hdr info parsed known)
            (forward-SameTables x info (incoming x d) s))
      | inl unknown ↦ elim (Bool-cases (is_initial hdr.ty)) [
        | inr later ↦ inl (ground (arith, derive_conn_id_lem s.conn_id_seed hdr.dcid))
        | inl first ↦
            elim (handle_initial-Effect x d hdr _ s parsed (ground arith) (ground arith)
              (length-derived s.conn_id_seed hdr.dcid)) [
                | inl kept ↦
                    inl (rw (handle_quic-initial d s hdr parsed unknown (ground arith)) kept)
                | inr (admitted, new) ↦ inr (
                  hdr,
                  admitted,
                  rw (handle_quic-initial d s hdr parsed unknown (ground arith)) new,
                )
              ]
      ]
    ]
  ]

  -- Address validation. A datagram changes the tables and the tasks only by adding one connection,
  -- and adds one only if it is an Initial packet of a supported version, with an unknown
  -- destination ID of 20 bytes and a token that the proxy's key signs for the address that the
  -- datagram came from.
  pub handle_quic_admits_validated :
      (d : Received x) (s : System x)
      → let t = (handle_udp_packet_mode_quic x d s).1 in
        SameTables x s t
        ⊎ ((hdr : Header) × (admitted : IsAdmitted x d s hdr) × IsSigned x.hmac s.token_key
              (octets d.src_ip_socket.ip)
              admitted.token
              admitted.odcid
            × Spawned x hdr.dcid s t)
  handle_quic_admits_validated d s = elim (handle_quic-Effect d s) [
    | inl kept ↦ inl kept
    | inr (hdr, admitted, new) ↦ inr (
      hdr,
      admitted,
      (validate_token_iff x.hmac s.token_key d.src_ip_socket _ _).0 admitted.valid,
      new,
    )
  ]
