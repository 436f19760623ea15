-- ===== src/Proxy/Dispatch/Effect.antt =====
-- What one datagram changes in the state of the proxy, in the mode `QuicEndpoint`.
use mqtt_rust_scion.Prelude.{
  ◌≡◌, refl, ap, ◌∙◌, ◌⊎◌, inl, inr, Bool, true, Option, none, some, [], ◌∷◌, length, Bool-cases,
  Option-cases, arith, if◌then◌else◌, ◌==◌, nat_eq, list_eq, nat_beq_iff,
}
use mqtt_rust_scion.Prelude.Maps.{get, insert}
use mqtt_rust_scion.Rust.{Bytes, done, ok}
use mqtt_rust_scion.Net.{UdpPacket}
use mqtt_rust_scion.Extern.Quiche.{Header, initial, max_conn_id_len}
use mqtt_rust_scion.Extern.Crates.{Crates}
use mqtt_rust_scion.Proxy.Token.{validate_token}
use mqtt_rust_scion.Proxy.Token.Validity.{validate_token_total}
use mqtt_rust_scion.Proxy.QuicConnection
use mqtt_rust_scion.Proxy.System.{ConnectionInfo, System}
use mqtt_rust_scion.Proxy.Dispatch.{
  Received, copy_from_slice, forward, answer, negotiate, stateless_retry, spawn_quic,
  accept_connection, check_token, handle_initial,
}

module _ (x : Crates) where
  -- The keys, the configuration, the tables and the tasks are as they were.
  pub record SameTables (s t : System x) : Type 0 where
    pub config : t.config ≡ s.config
    pub token_key : t.token_key ≡ s.token_key
    pub conn_id_seed : t.conn_id_seed ≡ s.conn_id_seed
    pub quic_connections : t.quic_connections ≡ s.quic_connections
    pub udp_connections : t.udp_connections ≡ s.udp_connections
    pub quic_tasks : t.quic_tasks ≡ s.quic_tasks
    pub udp_tasks : t.udp_tasks ≡ s.udp_tasks

  -- One connection was added, under `id`: an entry of the table and a task with the two ends of one
  -- channel and one cancellation token.
  pub record Spawned (id : Bytes) (s t : System x) : Type 0 where
    pub task : QuicConnection.Connection x
    pub config : t.config ≡ s.config
    pub token_key : t.token_key ≡ s.token_key
    pub conn_id_seed : t.conn_id_seed ≡ s.conn_id_seed
    pub quic_connections :
        t.quic_connections
        ≡ insert s.quic_connections id
            (record { sender = task.rx_udp_to_quic; cancel_token = task.cancel_token })
    pub udp_connections : t.udp_connections ≡ s.udp_connections
    pub quic_tasks : t.quic_tasks ≡ (id, task) ∷ s.quic_tasks
    pub udp_tasks : t.udp_tasks ≡ s.udp_tasks

  pub forward-SameTables :
      (info : ConnectionInfo x) (p : UdpPacket x.ScionAddr) (s : System x)
      → SameTables s (forward x info p s).1
  unfolding forward
  forward-SameTables info p s = ground arith

  answer-SameTables :
      (d : Received x) (out : Bytes) (s : System x) → SameTables s (answer x d out s).1
  unfolding answer
  answer-SameTables d out s = ground arith

  negotiate-SameTables :
      (d : Received x) (hdr : Header) (s : System x) → SameTables s (negotiate x d hdr s).1
  unfolding negotiate answer
  negotiate-SameTables d hdr s = ground arith

  stateless_retry-SameTables :
      (d : Received x) (hdr : Header) (scid : Bytes) (s : System x)
      → SameTables s (stateless_retry x d hdr scid s).1
  unfolding stateless_retry answer
  stateless_retry-SameTables d hdr scid s = ground arith

  spawn_quic-Spawned :
      (d : Received x) (id : Bytes) (conn : x.Conn) (s : System x)
      → Spawned id s (spawn_quic x d id conn s).1
  unfolding spawn_quic QuicConnection.new
  spawn_quic-Spawned d id conn s = record {
    task = _;
    config = refl;
    token_key = refl;
    conn_id_seed = refl;
    quic_connections = refl;
    udp_connections = refl;
    quic_tasks = refl;
    udp_tasks = refl;
  }

  -- The path of an Initial packet to a new connection: it is no packet of a known connection, its
  -- version is supported, and it carries a token that is valid for the address it came from.
  pub record IsAdmitted (d : Received x) (s : System x) (hdr : Header) : Type 0 where
    pub parsed : x.from_slice d.buf max_conn_id_len ≡ some hdr
    pub is_first : hdr.ty ≡ initial
    pub supported : x.version_is_supported hdr.version ≡ true
    pub unknown : get s.quic_connections hdr.dcid ≡ none
    pub token : Bytes
    pub carried : hdr.token ≡ some token
    pub odcid : Bytes
    pub valid : validate_token x.hmac s.token_key d.src_ip_socket token ≡ done (some odcid)
    pub id_len : length hdr.dcid ≡ max_conn_id_len

  -- Nothing was added, or the connection of the header's destination ID.
  abbrev pub Added : Header → System x → System x → Type 0
  Added hdr s t = SameTables s t ⊎ Spawned hdr.dcid s t

  SameTables-Spawned :
      {id : Bytes} {r s t : System x} → SameTables r s → Spawned id s t → Spawned id r t
  SameTables-Spawned {id} same new = record {
    task = new.task;
    config = new.config ∙ same.config;
    token_key = new.token_key ∙ same.token_key;
    conn_id_seed = new.conn_id_seed ∙ same.conn_id_seed;
    quic_connections =
        new.quic_connections
        ∙ ap
            (λ table.
              insert table id
                (record { sender = new.task.rx_udp_to_quic; cancel_token = new.task.cancel_token }))
            same.quic_connections;
    udp_connections = new.udp_connections ∙ same.udp_connections;
    quic_tasks = new.quic_tasks ∙ ap (λ tasks. (id, new.task) ∷ tasks) same.quic_tasks;
    udp_tasks = new.udp_tasks ∙ same.udp_tasks;
  }

  -- `quiche::accept`, and `recv` of the first packet, as `accept_connection` calls them.
  abbrev pub accepted_by : Received x → Header → Bytes → System x → Option x.Conn
  accepted_by d hdr odcid s =
      (x.accept hdr.dcid (some odcid) d.local_ip_socket d.src_ip_socket s.quic_config).0

  abbrev pub processed_by : Received x → x.Conn → Bool × x.Conn
  processed_by d = x.recv d.buf (record { from = d.src_ip_socket; to = d.local_ip_socket })

  pub accept_connection-Spawned :
      (d : Received x) (hdr : Header) (odcid : Bytes) (s : System x) {c : x.Conn}
      → accepted_by d hdr odcid s ≡ some c
      → (processed_by d c).0 ≡ true
      → let (outcome, t) = accept_connection x d hdr odcid s in
        (outcome ≡ ok tt) × Spawned hdr.dcid s t
  unfolding accept_connection
  accept_connection-Spawned d hdr odcid s e good = (
    rw (e, accept_connection, good) (unfold spawn_quic in refl),
    rw (e, accept_connection, good)
        (SameTables-Spawned (ground arith) (spawn_quic-Spawned d hdr.dcid _ _)),
  )

  accept_connection-Added :
      (d : Received x) (hdr : Header) (odcid : Bytes) (s : System x)
      → Added hdr s (accept_connection x d hdr odcid s).1
  unfolding accept_connection
  accept_connection-Added d hdr odcid s = elim (Option-cases (accepted_by d hdr odcid s)) [
    | inl refused ↦ inl (ground arith)
    | inr (c, e) ↦ elim (Bool-cases (processed_by d c).0) [
      | inl good ↦ inr (accept_connection-Spawned d hdr odcid s e good).1
      | inr bad ↦ inl (ground arith)
    ]
  ]

  check_token-Added :
      (d : Received x) (hdr : Header) (scid token : Bytes) (s : System x)
      → let t = (check_token x d hdr scid token s).1 in
        SameTables s t
        ⊎ ((odcid : Bytes) × (validate_token x.hmac s.token_key d.src_ip_socket token
              ≡ done (some odcid))
            × (length scid ≡ length hdr.dcid)
            × Spawned hdr.dcid s t)
  unfolding check_token
  check_token-Added d hdr scid token s =
      let (r, total) = validate_token_total x.hmac s.token_key d.src_ip_socket token in
      elim (Option-cases r) [
        | inl e ↦ inl (ground arith)
        | inr (odcid, e) ↦ elim (Bool-cases (length scid == length hdr.dcid)) [
          | inr other ↦ inl (ground arith)
          | inl same ↦ elim (accept_connection-Added d hdr odcid s) [
            | inl kept ↦ inl (rw (total, check_token, e, same) kept)
            | inr new ↦ inr (
              odcid,
              total ∙ ap done e,
              (nat_beq_iff _ _).0 same,
              rw (total, check_token, e, same) new,
            )
          ]
        ]
      ]

  -- The cases of a supported version with a token, by whether the token is empty.
  pub handle_initial-token :
      (d : Received x) (hdr : Header) (conn_id token : Bytes) (s : System x)
      → x.version_is_supported hdr.version ≡ true
      → length conn_id ≡ max_conn_id_len
      → hdr.token ≡ some token
      → handle_initial x d hdr conn_id s
        ≡ (if token == []
              then stateless_retry x d hdr conn_id
              else check_token x d hdr conn_id token)
            s
  unfolding handle_initial copy_from_slice
  handle_initial-token d hdr conn_id token s supported l carried = ground arith

  pub handle_initial-Effect :
      (d : Received x) (hdr : Header) (conn_id : Bytes) (s : System x)
      → x.from_slice d.buf max_conn_id_len ≡ some hdr
      → hdr.ty ≡ initial
      → get s.quic_connections hdr.dcid ≡ none
      → length conn_id ≡ max_conn_id_len
      → let t = (handle_initial x d hdr conn_id s).1 in
        SameTables s t ⊎ (IsAdmitted d s hdr × Spawned hdr.dcid s t)
  unfolding handle_initial copy_from_slice
  handle_initial-Effect d hdr conn_id s parsed first unknown l =
      elim (Bool-cases (x.version_is_supported hdr.version)) [
        | inr old ↦ inl (rw old (negotiate-SameTables d hdr s))
        | inl supported ↦ elim (Option-cases hdr.token) [
          | inl absent ↦ inl (ground arith)
          | inr (token, carried) ↦
              let by_token = handle_initial-token d hdr conn_id token s supported l carried in
              elim (Bool-cases (token == [])) [
                | inl empty ↦
                    inl (rw (by_token, empty) (stateless_retry-SameTables d hdr conn_id s))
                | inr given ↦ elim (check_token-Added d hdr conn_id token s) [
                  | inl kept ↦ inl (rw (by_token, given) kept)
                  | inr (odcid, valid, id_len, new) ↦ inr (
                    record {
                      parsed = parsed;
                      is_first = first;
                      supported = supported;
                      unknown = unknown;
                      token = token;
                      carried = carried;
                      odcid = odcid;
                      valid = valid;
                      id_len = omega (arith, id_len);
                    },
                    rw (by_token, given) new,
                  )
                ]
              ]
        ]
      ]
