-- ===== src/Proxy/QuicConnection/Relay.antt =====
-- connection_mode_quic.rs, `process_udp_packet`: what a task writes to the broker.
use mqtt_rust_scion.Prelude.{
  ℕ, zero, suc, ◌≡◌, refl, sym, ap, ◌∙◌, ◌⊎◌, inl, inr, false, none, some, List, [], ◌∷◌, ◌++◌,
  append-nil, append_assoc, if◌then◌else◌, ◌==◌, nat_eq, Bool-cases, Option-cases, arith,
}
use mqtt_rust_scion.Rust.{Bytes, ok, err, foreign}
use mqtt_rust_scion.Net.{UdpPacket, max_datagram_size}
use mqtt_rust_scion.Extern.Quiche.{RecvInfo}
use mqtt_rust_scion.Extern.Runtime.{StreamLaws}
use mqtt_rust_scion.Extern.Crates.{Crates}
use mqtt_rust_scion.Proxy.QuicConnection.{
  Task, relay, drain_stream, read_streams, await_client_cert, after_recv, process_udp_packet,
  with_conn,
}

module _ (x : Crates) where
  -- Mutual authentication: if there is no client certificate after QUIC has taken a packet, then
  -- the packet changes neither the world nor the TCP stream of the task. In particular nothing is
  -- written to the broker.
  pub process_udp_packet-no_cert :
      (fuel : ℕ) (p : UdpPacket x.ScionAddr) (t : Task x)
      → ((info : RecvInfo) → x.has_peer_cert (x.recv p.payload info t.conn).1 ≡ false)
      → let t' = (process_udp_packet x fuel p t).1 in
        (t'.world ≡ t.world) × (t'.tcp_stream ≡ t.tcp_stream)
  unfolding process_udp_packet after_recv await_client_cert
  process_udp_packet-no_cert fuel p t h = elim (Option-cases (x.local_address p.src)) [
    | inl e ↦ ground arith
    | inr (from, e) ↦ elim (Option-cases (x.local_address p.dst)) [
      | inl e' ↦ ground arith
      | inr (to, e') ↦ ground (arith, h (record { from = from; to = to }))
    ]
  ]

  -- The bytes that a stream holds, as a reader gets them, and the connection after them.
  pub stream_bytes : ℕ → ℕ → x.Conn → Bytes × x.Conn
  stream_bytes zero id c = ([], c)
  stream_bytes (suc fuel) id c =
      let (chunk, c') = x.stream_recv id max_datagram_size c in
      elim chunk [
        | none ↦ ([], c')
        | some bytes ↦ let (more, c'') = stream_bytes fuel id c' in (bytes ++ more, c'')
      ]

  -- What the broker gets of the streams `ids`: the bytes of stream 0.
  pub relayed : ℕ → List ℕ → x.Conn → Bytes
  relayed fuel [] c = []
  relayed fuel (id ∷ ids) c =
      let (bytes, c') = stream_bytes fuel id c in
      (if id == 0 then bytes else []) ++ relayed fuel ids c'

  pub relayed-cons :
      (fuel id : ℕ) (ids : List ℕ) (c : x.Conn)
      → relayed fuel (id ∷ ids) c
        ≡ (if id == 0 then (stream_bytes fuel id c).0 else [])
          ++ relayed fuel ids (stream_bytes fuel id c).1
  unfolding relayed
  relayed-cons fuel id ids c = refl

  module _ (laws : StreamLaws x.runtime) where
    -- Reading a stream leaves the broker's TCP stream `s` in place and writes `new` to it.
    pub record Relayed (s : x.TcpStream) (new : Bytes) (c : x.Conn) (w : x.World) (t' : Task x)
        : Type 0 where
      pub stream : t'.tcp_stream ≡ some s
      pub conn : t'.conn ≡ c
      pub bytes : laws.written s t'.world ≡ laws.written s w ++ new

    pub relay-Relayed :
        (id : ℕ) (bytes : Bytes) (t : Task x) (s : x.TcpStream)
        → t.tcp_stream ≡ some s
        → (relay x id bytes t).0 ≡ ok tt
        → Relayed s (if id == 0 then bytes else []) t.conn t.world (relay x id bytes t).1
    unfolding relay
    relay-Relayed id bytes t s e good = elim (Bool-cases (id == 0)) [
      | inr other ↦ ground (arith, append-nil (laws.written s t.world))
      | inl zero_id ↦ ground (arith, laws.written-write_all s bytes t.world)
    ]

    Relayed-then :
        {s : x.TcpStream} {a b : Bytes} {c c' : x.Conn} {w : x.World} {u v : Task x}
        → Relayed s a c w u
        → Relayed s b c' u.world v
        → Relayed s (a ++ b) c' w v
    Relayed-then {s} {a} {b} {c} {c'} {w} first rest = record {
      stream = rest.stream;
      conn = rest.conn;
      bytes =
          rest.bytes ∙ ap (λ before. before ++ b) first.bytes ∙ append_assoc (laws.written s w) a b;
    }

    -- Of the bytes `all` those in `done` were written to the stream `s` from the world `before` on; the
    -- write of the next chunk failed, which led to the world `after`.
    pub record BrokenOff (s : x.TcpStream) (before : x.World) (all : Bytes) (after : x.World)
        : Type 0 where
      pub done : Bytes
      pub chunk : Bytes
      pub rest : Bytes
      pub world : x.World
      pub parts : all ≡ done ++ (chunk ++ rest)
      pub written : laws.written s world ≡ laws.written s before ++ done
      pub refused : (x.write_all s chunk world).0 ≡ false
      pub left : after ≡ (x.write_all s chunk world).1

    pub BrokenOff-more :
        {s : x.TcpStream} {a : Bytes} {w w' : x.World} (b : Bytes)
        → BrokenOff s w a w'
        → BrokenOff s w (a ++ b) w'
    BrokenOff-more b h = record {
      done = h.done;
      chunk = h.chunk;
      rest = h.rest ++ b;
      world = h.world;
      parts =
          ap (λ a. a ++ b) h.parts
          ∙ append_assoc h.done (h.chunk ++ h.rest) b
          ∙ ap (λ c. h.done ++ c) (append_assoc h.chunk h.rest b);
      written = h.written;
      refused = h.refused;
      left = h.left;
    }

    pub BrokenOff-after :
        {s : x.TcpStream} {a b : Bytes} {c : x.Conn} {w w' : x.World} {u : Task x}
        → Relayed s a c w u
        → BrokenOff s u.world b w'
        → BrokenOff s w (a ++ b) w'
    BrokenOff-after {s} {a} {b} {c} {w} first h = record {
      done = a ++ h.done;
      chunk = h.chunk;
      rest = h.rest;
      world = h.world;
      parts = ap (λ b. a ++ b) h.parts ∙ sym (append_assoc a h.done (h.chunk ++ h.rest));
      written =
          h.written
          ∙ ap (λ before. before ++ h.done) first.bytes
          ∙ append_assoc (laws.written s w) a h.done;
      refused = h.refused;
      left = h.left;
    }

    pub relay_outcome :
        (id : ℕ) (bytes : Bytes) (t : Task x) (s : x.TcpStream)
        → t.tcp_stream ≡ some s
        → ((relay x id bytes t).0 ≡ ok tt)
          ⊎ (((relay x id bytes t).0 ≡ err foreign)
              × BrokenOff s t.world (if id == 0 then bytes else []) (relay x id bytes t).1.world)
    unfolding relay
    relay_outcome id bytes t s e = elim (Bool-cases (id == 0)) [
      | inr other ↦ inl (ground arith)
      | inl zero_id ↦ elim (Bool-cases (x.write_all s bytes t.world).0) [
        | inl done ↦ inl (ground arith)
        | inr refused ↦ inr (
          ground arith,
          record {
            done = [];
            chunk = bytes;
            rest = [];
            world = t.world;
            parts = rw zero_id (sym (append-nil bytes));
            written = sym (append-nil (laws.written s t.world));
            refused = refused;
            left = ground arith;
          },
        )
      ]
    ]

    pub on_stream_0 :
        (id : ℕ) (a b : Bytes)
        → (if id == 0 then a else []) ++ (if id == 0 then b else [])
          ≡ (if id == 0 then a ++ b else [])
    on_stream_0 id a b = ground arith

    pub drain_stream-step :
        (fuel id : ℕ) (t : Task x) (bytes : Bytes)
        → (x.stream_recv id max_datagram_size t.conn).0 ≡ some bytes
        → (relay x id bytes (with_conn x t (x.stream_recv id max_datagram_size t.conn).1)).0 ≡ ok tt
        → drain_stream x (suc fuel) id t
          ≡ drain_stream x fuel id
              (relay x id bytes (with_conn x t (x.stream_recv id max_datagram_size t.conn).1)).1
    unfolding drain_stream
    drain_stream-step fuel id t bytes more done = rw (more, done) refl

    pub drain_stream-stop :
        (fuel id : ℕ) (t : Task x) (bytes : Bytes)
        → (x.stream_recv id max_datagram_size t.conn).0 ≡ some bytes
        → (relay x id bytes (with_conn x t (x.stream_recv id max_datagram_size t.conn).1)).0
          ≡ err foreign
        → drain_stream x (suc fuel) id t ≡ (
          err foreign,
          (relay x id bytes (with_conn x t (x.stream_recv id max_datagram_size t.conn).1)).1,
        )
    unfolding drain_stream
    drain_stream-stop fuel id t bytes more failed = rw (more, failed) refl

    pub stream_bytes-step :
        (fuel id : ℕ) (c : x.Conn) (bytes : Bytes)
        → (x.stream_recv id max_datagram_size c).0 ≡ some bytes
        → let rest = stream_bytes fuel id (x.stream_recv id max_datagram_size c).1 in
          stream_bytes (suc fuel) id c ≡ (bytes ++ rest.0, rest.1)
    unfolding stream_bytes
    stream_bytes-step fuel id c bytes more = ground arith

    pub drain_stream-Relayed :
        (fuel id : ℕ) (t : Task x) (c : x.Conn) (s : x.TcpStream)
        → t.tcp_stream ≡ some s
        → t.conn ≡ c
        → (drain_stream x fuel id t).0 ≡ ok tt
        → let (bytes, c') = stream_bytes fuel id c in
          Relayed s (if id == 0 then bytes else []) c' t.world (drain_stream x fuel id t).1
    unfolding drain_stream stream_bytes
    drain_stream-Relayed zero id t c s e same good = ground arith
    drain_stream-Relayed (suc fuel) id t c s e same good =
        elim (Option-cases (x.stream_recv id max_datagram_size t.conn).0) [
          | inl none_left ↦ ground (arith, append-nil (laws.written s t.world))
          | inr (bytes, more) ↦
              let u = with_conn x t (x.stream_recv id max_datagram_size t.conn).1 in
              elim (relay_outcome id bytes u s e) [
                | inr (failed, _) ↦ ground (arith, drain_stream-stop fuel id t bytes more failed)
                | inl done ↦
                    let first = relay-Relayed id bytes u s e done in
                    let step = drain_stream-step fuel id t bytes more done in
                    let rest =
                      drain_stream-Relayed fuel id (relay x id bytes u).1 u.conn s first.stream
                        first.conn (ap (λ r. r.0) (sym step) ∙ good) in
                    let whole = Relayed-then first rest in
                    let read =
                      ap (stream_bytes (suc fuel) id) (sym same)
                      ∙ stream_bytes-step fuel id t.conn bytes more in
                    record {
                      stream = ap (λ r. r.1.tcp_stream) step ∙ whole.stream;
                      conn = ap (λ r. r.1.conn) step ∙ whole.conn ∙ ap (λ r. r.1) (sym read);
                      bytes =
                          ap (λ r. laws.written s r.1.world) step
                          ∙ whole.bytes
                          ∙ ap (λ b. laws.written s t.world ++ b)
                              (on_stream_0 id bytes _
                                ∙ ap (λ r. if id == 0 then r.0 else []) (sym read));
                    }
              ]
        ]

    drain_first :
        (fuel id : ℕ) (ids : List ℕ) (t : Task x)
        → (read_streams x fuel (id ∷ ids) t).0 ≡ ok tt
        → ((drain_stream x fuel id t).0 ≡ ok tt)
          × (read_streams x fuel (id ∷ ids) t
              ≡ read_streams x fuel ids (drain_stream x fuel id t).1)
    unfolding read_streams
    drain_first fuel id ids t good = ground arith

    pub read_streams-relayed :
        (fuel : ℕ) (ids : List ℕ) (t : Task x) (c : x.Conn) (s : x.TcpStream)
        → t.tcp_stream ≡ some s
        → t.conn ≡ c
        → (read_streams x fuel ids t).0 ≡ ok tt
        → (laws.written s (read_streams x fuel ids t).1.world
            ≡ laws.written s t.world ++ relayed fuel ids c)
    unfolding relayed
    read_streams-relayed fuel [] t c s e same good =
        unfold read_streams in ground (arith, append-nil (laws.written s t.world))
    read_streams-relayed fuel (id ∷ ids) t c s e same good =
        let (done, step) = drain_first fuel id ids t good in
        let first = drain_stream-Relayed fuel id t c s e same done in
        ap (λ r. laws.written s r.1.world) step
        ∙ read_streams-relayed fuel ids (drain_stream x fuel id t).1 _ s first.stream first.conn
            (ap (λ r. r.0) (sym step) ∙ good)
        ∙ ap (λ before. before ++ relayed fuel ids (stream_bytes fuel id c).1) first.bytes
        ∙ append_assoc (laws.written s t.world) _ _
