-- ===== src/Proxy/Dispatch/Outcomes.antt =====
-- How the handling of a datagram ends in the mode `QuicEndpoint`.
use mqtt_rust_scion.Prelude.{
  ◌≡◌, refl, ap, ◌∙◌, ◌⊎◌, inl, inr, true, false, none, some, [], Bool-cases, Option-cases, arith,
  ◌==◌, nat_eq, list_eq, list_beq_iff,
}
use mqtt_rust_scion.Rust.{Bytes, ok, err, message, foreign}
use mqtt_rust_scion.Net.{UdpPacket, max_datagram_size}
use mqtt_rust_scion.Extern.Ring.{HmacLaws}
use mqtt_rust_scion.Extern.Quiche.{Header, initial, max_conn_id_len}
use mqtt_rust_scion.Extern.Crates.{Crates}
use mqtt_rust_scion.Proxy.Token.{mint_token}
use mqtt_rust_scion.Proxy.Token.Validity.{validate_token_total}
use mqtt_rust_scion.Proxy.System.{ConnectionInfo, System}
use mqtt_rust_scion.Proxy.Dispatch.{
  Received, is_initial, copy_from_slice, forward, incoming, answer, negotiate, stateless_retry,
  spawn_quic, accept_connection, check_token, handle_initial, dispatch_header,
  handle_udp_packet_mode_quic,
}
use mqtt_rust_scion.Proxy.Dispatch.Effect.{handle_initial-token}
use mqtt_rust_scion.Proxy.Dispatch.Admission.{
  route, derive_conn_id_lem, length-derived, handle_quic-initial, handle_quic-known,
}
use mqtt_rust_scion.Proxy.Dispatch.Retry.{retry_id}

module _ (x : Crates) (laws : HmacLaws x.hmac) where
  pub forward_ok :
      (info : ConnectionInfo x) (p : UdpPacket x.ScionAddr) (s : System x)
      → (forward x info p s).0 ≡ ok tt
  unfolding forward
  forward_ok info p s = ground arith

  accept_connection_ok :
      (d : Received x) (hdr : Header) (odcid : Bytes) (s : System x)
      → (accept_connection x d hdr odcid s).0 ≡ ok tt
  unfolding accept_connection spawn_quic
  accept_connection_ok d hdr odcid s = ground arith

  check_token_ok :
      (d : Received x) (hdr : Header) (scid token : Bytes) (s : System x)
      → (check_token x d hdr scid token s).0 ≡ ok tt
  unfolding check_token
  check_token_ok d hdr scid token s =
      let (r, total) = validate_token_total x.hmac s.token_key d.src_ip_socket token in
      elim (Option-cases r) [
        | inl e ↦ ground arith
        | inr (odcid, e) ↦ ground (arith, accept_connection_ok d hdr odcid s)
      ]

  -- What is wrong with an Initial packet whose handling returns an error, and that error.
  pub data Fault (d : Received x) (s : System x) (hdr : Header) : Type 0 where
    no_negotiation :
        x.version_is_supported hdr.version ≡ false
        → x.negotiate_version hdr.scid hdr.dcid max_datagram_size ≡ none
        → (handle_udp_packet_mode_quic x d s).0 ≡ err foreign
        → Fault d s hdr
    no_token :
        x.version_is_supported hdr.version ≡ true
        → hdr.token ≡ none
        → (handle_udp_packet_mode_quic x d s).0 ≡ err (message "Token should be available.")
        → Fault d s hdr
    no_retry :
        x.version_is_supported hdr.version ≡ true
        → hdr.token ≡ some []
        → x.retry_packet hdr.scid hdr.dcid
            (retry_id x laws s hdr)
            (mint_token x.hmac s.token_key hdr d.src_ip_socket)
            hdr.version
            max_datagram_size
          ≡ none
        → (handle_udp_packet_mode_quic x d s).0 ≡ err foreign
        → Fault d s hdr

  retried :
      (d : Received x) (s : System x) (hdr : Header) (token : Bytes)
      → x.version_is_supported hdr.version ≡ true
      → hdr.token ≡ some token
      → (token == []) ≡ true
      → handle_udp_packet_mode_quic x d s ≡ stateless_retry x d hdr (retry_id x laws s hdr) s
      → ((handle_udp_packet_mode_quic x d s).0 ≡ ok tt) ⊎ Fault d s hdr
  unfolding stateless_retry answer
  retried d s hdr token supported carried empty whole =
      let new_token = mint_token x.hmac s.token_key hdr d.src_ip_socket in
      elim (Option-cases (
        x.retry_packet hdr.scid hdr.dcid (retry_id x laws s hdr) new_token hdr.version
          max_datagram_size)) [
            | inl e ↦ inr (
                no_retry supported (carried ∙ ap some ((list_beq_iff token []).0 empty)) e
                  (ap (λ r. r.0) whole ∙ ground arith))
            | inr (out, e) ↦ inl (ap (λ r. r.0) whole ∙ ground arith)
          ]

  initial_outcome :
      (d : Received x) (s : System x) (hdr : Header)
      → let result = handle_initial x d hdr (retry_id x laws s hdr) s in
        handle_udp_packet_mode_quic x d s ≡ result
        → ((handle_udp_packet_mode_quic x d s).0 ≡ ok tt) ⊎ Fault d s hdr
  unfolding handle_initial negotiate answer copy_from_slice
  initial_outcome d s hdr whole = elim (Bool-cases (x.version_is_supported hdr.version)) [
    | inr old ↦ elim (Option-cases (x.negotiate_version hdr.scid hdr.dcid max_datagram_size)) [
      | inl e ↦ inr (no_negotiation old e (ap (λ r. r.0) whole ∙ ground arith))
      | inr (out, e) ↦ inl (ap (λ r. r.0) whole ∙ ground arith)
    ]
    | inl supported ↦ elim (Option-cases hdr.token) [
      | inl absent ↦ inr (
          no_token supported absent
            (ap (λ r. r.0) whole ∙ ground (arith, length-derived x laws s.conn_id_seed hdr.dcid)))
      | inr (token, carried) ↦
          let by_token =
            whole
            ∙ handle_initial-token x d hdr (retry_id x laws s hdr) token s supported
                (length-derived x laws s.conn_id_seed hdr.dcid) carried in
          elim (Bool-cases (token == [])) [
            | inr given ↦ inl (
                ap (λ r. r.0) by_token
                ∙ rw given (check_token_ok d hdr (retry_id x laws s hdr) token s))
            | inl empty ↦ retried d s hdr token supported carried empty (by_token ∙ rw empty refl)
          ]
    ]
  ]

  -- The handler never panics. It returns an error only for an Initial packet of an
  -- unknown connection with one of three faults: an unsupported version that cannot be answered, no
  -- token field, or an empty token for which no Retry can be written.
  pub handle_quic_outcome :
      (d : Received x) (s : System x)
      → ((handle_udp_packet_mode_quic x d s).0 ≡ ok tt)
        ⊎ ((hdr : Header) × (x.from_slice d.buf max_conn_id_len ≡ some hdr)
            × (route x laws s hdr ≡ none)
            × (hdr.ty ≡ initial)
            × Fault d s hdr)
  unfolding handle_udp_packet_mode_quic dispatch_header
  handle_quic_outcome d s = elim (Option-cases (x.from_slice d.buf max_conn_id_len)) [
    | inl garbage ↦ inl (ground arith)
    | inr (hdr, parsed) ↦ elim (Option-cases (route x laws s hdr)) [
      | inr (info, known) ↦ inl (
          ap (λ r. r.0) (handle_quic-known x laws d s hdr info parsed known)
          ∙ forward_ok info (incoming x d) s)
      | inl unknown ↦ elim (Bool-cases (is_initial hdr.ty)) [
        | inr later ↦ inl (ground (arith, derive_conn_id_lem x laws s.conn_id_seed hdr.dcid))
        | inl first ↦
            let ty : hdr.ty ≡ initial = ground arith in
            elim (initial_outcome d s hdr (handle_quic-initial x laws d s hdr parsed unknown ty)) [
              | inl good ↦ inl good
              | inr fault ↦ inr (hdr, parsed, unknown, ty, fault)
            ]
      ]
    ]
  ]
