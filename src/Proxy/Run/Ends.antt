-- ===== src/Proxy/Run/Ends.antt =====
-- How the main loop of the proxy ends, the loop that serves all clients.
use mqtt_rust_scion.Prelude.{
  ◌≡◌, refl, ap, ◌∙◌, ◌⊎◌, inl, inr, false, Bool-cases, Option-cases, none, some, List, [], ◌∷◌,
  ◌++◌, arith,
}
use mqtt_rust_scion.Prelude.Maps.{get}
use mqtt_rust_scion.Rust.{Bytes, SocketAddr, Error, ok, err, foreign}
use mqtt_rust_scion.Net.{UdpPacket}
use mqtt_rust_scion.Extern.Ring.{HmacLaws}
use mqtt_rust_scion.Extern.Quiche.{Header, initial, max_conn_id_len}
use mqtt_rust_scion.Extern.Crates.{Crates}
use mqtt_rust_scion.Proxy.System.{Mode, quic_endpoint, udp_endpoint, System}
use mqtt_rust_scion.Proxy.Dispatch.{
  Received, spawn_udp, incoming, handle_udp_packet_mode_quic, handle_udp_packet_mode_udp,
}
use mqtt_rust_scion.Proxy.Dispatch.Admission.{route}
use mqtt_rust_scion.Proxy.Dispatch.Outcomes.{
  Fault, no_negotiation, no_token, no_retry, handle_quic_outcome, forward_ok,
}
use mqtt_rust_scion.Proxy.Run.{Event, datagram, outgoing, Bound, on_datagram, round, main_loop}

Mode-cases : (m : Mode) → (m ≡ quic_endpoint) ⊎ (m ≡ udp_endpoint)
Mode-cases quic_endpoint = inl refl
Mode-cases udp_endpoint = inr refl

module _ (x : Crates) (laws : HmacLaws x.hmac) where
  abbrev pub received : Bound x.ScionAddr x.Channel → Bytes → x.ScionAddr → SocketAddr → Received x
  received b buf src src_ip_addr = record {
    buf = buf;
    src_ip_socket = src_ip_addr;
    src_scion_socket = src;
    local_ip_socket = b.local_addr;
    local_scion_socket = b.local_scion_addr;
    tx_quic_to_udp = b.tx_quic_to_udp;
  }

  -- Why an event ends the loop in the state `s`.
  pub data Cause (b : Bound x.ScionAddr x.Channel) (s : System x) : Event x.ScionAddr → Type 0 where
    send_failed :
        (p : UdpPacket x.ScionAddr)
        → (x.scion_send_to p.payload p.dst s.world).0 ≡ false
        → Cause b s (outgoing p)
    faulty :
        (buf : Bytes) (src : x.ScionAddr) (src_ip_addr : SocketAddr) (hdr : Header)
        → s.config.mode ≡ quic_endpoint
        → x.local_address src ≡ some src_ip_addr
        → x.from_slice buf max_conn_id_len ≡ some hdr
        → route x laws s hdr ≡ none
        → hdr.ty ≡ initial
        → Fault x laws (received b buf src src_ip_addr) s hdr
        → Cause b s (datagram buf src)

  error_of_Fault :
      (d : Received x) (s : System x) (hdr : Header)
      → Fault x laws d s hdr
      → (e : Error) × ((handle_udp_packet_mode_quic x d s).0 ≡ err e)
  error_of_Fault d s hdr (no_negotiation a b c) = (_, c)
  error_of_Fault d s hdr (no_token a b c) = (_, c)
  error_of_Fault d s hdr (no_retry a b c d') = (_, d')

  handle_udp_ok : (d : Received x) (s : System x) → (handle_udp_packet_mode_udp x d s).0 ≡ ok tt
  unfolding handle_udp_packet_mode_udp spawn_udp
  handle_udp_ok d s =
      elim (Option-cases (get ⦃e = x.addr_eq⦄ s.udp_connections d.src_scion_socket)) [
        | inl absent ↦ ground arith
        | inr (info, known) ↦ ground (arith, forward_ok x laws info (incoming x d) s)
      ]

  round-quic :
      (b : Bound x.ScionAddr x.Channel) (buf : Bytes) (src : x.ScionAddr) (s : System x)
      {ip : SocketAddr}
      → x.local_address src ≡ some ip
      → s.config.mode ≡ quic_endpoint
      → round x b (datagram buf src) s ≡ handle_udp_packet_mode_quic x (received b buf src ip) s
  unfolding round on_datagram
  round-quic b buf src s at quic = ground arith

  round-udp :
      (b : Bound x.ScionAddr x.Channel) (buf : Bytes) (src : x.ScionAddr) (s : System x)
      {ip : SocketAddr}
      → x.local_address src ≡ some ip
      → s.config.mode ≡ udp_endpoint
      → round x b (datagram buf src) s ≡ handle_udp_packet_mode_udp x (received b buf src ip) s
  unfolding round on_datagram
  round-udp b buf src s at udp = ground arith

  round_outcome :
      (b : Bound x.ScionAddr x.Channel) (e : Event x.ScionAddr) (s : System x)
      → ((round x b e s).0 ≡ ok tt)
        ⊎ ((fault : Error) × ((round x b e s).0 ≡ err fault) × Cause b s e)
  unfolding round on_datagram
  round_outcome b (outgoing p) s = elim (Bool-cases (x.scion_send_to p.payload p.dst s.world).0) [
    | inl good ↦ inl (ground arith)
    | inr bad ↦ inr (foreign, ground arith, send_failed p bad)
  ]
  round_outcome b (datagram buf src) s = elim (Option-cases (x.local_address src)) [
    | inl service ↦ inl (ground arith)
    | inr (ip, at) ↦
        let d = received b buf src ip in
        elim (Mode-cases s.config.mode) [
          | inr udp ↦ inl (ap (λ r. r.0) (round-udp b buf src s at udp) ∙ handle_udp_ok d s)
          | inl quic ↦ elim (handle_quic_outcome x laws d s) [
            | inl good ↦ inl (ap (λ r. r.0) (round-quic b buf src s at quic) ∙ good)
            | inr (hdr, parsed, unknown, first, fault) ↦
                let (e, failed) = error_of_Fault d s hdr fault in
                inr (
                  e,
                  ap (λ r. r.0) (round-quic b buf src s at quic) ∙ failed,
                  faulty buf src ip hdr quic at parsed unknown first fault,
                )
          ]
        ]
  ]

  -- The loop ended with the error `fault` at the event after `pre`, for a reason, and the events
  -- `post` were not served.
  pub record Stopped (b : Bound x.ScionAddr x.Channel) (events : List (Event x.ScionAddr))
      (s : System x) : Type 0 where
    pub pre : List (Event x.ScionAddr)
    pub event : Event x.ScionAddr
    pub post : List (Event x.ScionAddr)
    pub before : System x
    pub fault : Error
    pub split : events ≡ pre ++ event ∷ post
    pub ran : main_loop x b pre s ≡ (ok tt, before)
    pub cause : Cause b before event
    pub failed : main_loop x b events s ≡ (err fault, (round x b event before).1)

  -- The loop serves all its events, without a panic, or stops at the first event that has a cause: a
  -- packet of any task that the SCION socket does not send, or a datagram of anyone that parses as an
  -- Initial packet of an unknown connection and has one of three faults.
  pub main_loop_ends :
      (b : Bound x.ScionAddr x.Channel) (events : List (Event x.ScionAddr)) (s : System x)
      → ((main_loop x b events s).0 ≡ ok tt) ⊎ Stopped b events s
  unfolding main_loop
  main_loop_ends b [] s = inl refl
  main_loop_ends b (e ∷ events) s = elim (round_outcome b e s) [
    | inr (fault, failed, cause) ↦ inr (record {
      pre = [];
      event = e;
      post = events;
      before = s;
      fault = fault;
      split = refl;
      ran = refl;
      cause = cause;
      failed = rw failed refl;
    })
    | inl good ↦ elim (main_loop_ends b events (round x b e s).1) [
      | inl all ↦ inl (rw good all)
      | inr stop ↦ inr (record {
        pre = e ∷ stop.pre;
        event = stop.event;
        post = stop.post;
        before = stop.before;
        fault = stop.fault;
        split = ap (λ rest. e ∷ rest) stop.split;
        ran = rw good stop.ran;
        cause = stop.cause;
        failed = rw good stop.failed;
      })
    ]
  ]
