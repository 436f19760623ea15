-- ===== src/Proxy/QuicConnection/Delivery.antt =====
-- connection_mode_quic.rs, `process_udp_packet` as a whole: how it ends, and what the broker then has.
use mqtt_rust_scion.Prelude.{
  ℕ, zero, suc, ◌<◌, ◌≤◌, ◌≡◌, refl, sym, subst, ap, ◌∙◌, if◌then◌else◌, ◌==◌, ◌⊎◌, inl, inr, true,
  some, List, [], ◌∷◌, ◌++◌, nat_eq, Option-cases, arith,
}
use mqtt_rust_scion.Rust.{Bytes, Outcome, ok, err, foreign, SocketAddr}
use mqtt_rust_scion.Net.{UdpPacket, max_datagram_size}
use mqtt_rust_scion.Extern.Quiche.{QuicheLaws}
use mqtt_rust_scion.Extern.Runtime.{StreamLaws}
use mqtt_rust_scion.Extern.Crates.{Crates}
use mqtt_rust_scion.Proxy.QuicConnection.{
  Task, relay, drain_stream, read_streams, after_recv, process_udp_packet, with_conn,
}
use mqtt_rust_scion.Proxy.QuicConnection.Relay.{
  relayed, relay-Relayed, drain_stream-Relayed, read_streams-relayed, relay_outcome,
  drain_stream-step, drain_stream-stop, stream_bytes, stream_bytes-step, on_stream_0, relayed-cons,
  BrokenOff, BrokenOff-more, BrokenOff-after,
}

module _ (x : Crates) (quic : QuicheLaws x.quiche) (laws : StreamLaws x.runtime) where
  -- A body that reads streams with the bytes `new` for the broker either ends well and has not more
  -- to read than before, or breaks off with an error at a write to the broker that fails.
  abbrev Ends : x.TcpStream → Bytes → Task x → Outcome (Unit {0}) × Task x → Type 0
  Ends s new t (outcome, t') =
      ((outcome ≡ ok tt) × (quic.unread t'.conn ≤ quic.unread t.conn))
      ⊎ ((outcome ≡ err foreign) × BrokenOff x laws s t.world new t'.world)

  -- What the broker gets of a stream.
  abbrev of_stream : ℕ → ℕ → x.Conn → Bytes
  of_stream fuel id c = if id == 0 then (stream_bytes x fuel id c).0 else []

  of_stream-suc :
      (fuel id : ℕ) (c : x.Conn) (bytes : Bytes)
      → (x.stream_recv id max_datagram_size c).0 ≡ some bytes
      → (if id == 0 then bytes else [])
          ++ of_stream fuel id (x.stream_recv id max_datagram_size c).1
        ≡ of_stream (suc fuel) id c
  of_stream-suc fuel id c bytes more =
      on_stream_0 x laws id bytes _
      ∙ ap (λ r. if id == 0 then r.0 else []) (sym (stream_bytes-step x laws fuel id c bytes more))

  broken_at :
      {s : x.TcpStream} {a b : Bytes} {w v v' : x.World}
      → v ≡ v'
      → a ≡ b
      → BrokenOff x laws s w a v
      → BrokenOff x laws s w b v'
  broken_at {s} {a} {b} {w} {v} {v'} after all h =
      subst (BrokenOff x laws s w b) after (subst (λ c. BrokenOff x laws s w c v) all h)

  drain_stream-Ends :
      (fuel id : ℕ) (t : Task x) (s : x.TcpStream)
      → t.tcp_stream ≡ some s
      → quic.unread t.conn < fuel
      → Ends s (of_stream fuel id t.conn) t (drain_stream x fuel id t)
  drain_stream-Ends zero id t s e enough = ground arith
  drain_stream-Ends (suc fuel) id t s e enough =
      elim (Option-cases (x.stream_recv id max_datagram_size t.conn).0) [
        | inl none_left ↦
            unfold drain_stream in
            ground (arith, quic.unread-stream_recv_none id max_datagram_size t.conn none_left)
        | inr (bytes, more) ↦
            let u = with_conn x t (x.stream_recv id max_datagram_size t.conn).1 in
            let less = quic.unread-stream_recv id max_datagram_size t.conn bytes more in
            let whole = of_stream-suc fuel id t.conn bytes more in
            elim (relay_outcome x laws id bytes u s e) [
              | inr (failed, broken) ↦
                  let stop = drain_stream-stop x laws fuel id t bytes more failed in
                  inr (
                    ap (λ r. r.0) stop,
                    broken_at (sym (ap (λ r. r.1.world) stop)) whole
                        (BrokenOff-more x laws (of_stream fuel id u.conn) broken),
                  )
              | inl done ↦
                  let first = relay-Relayed x laws id bytes u s e done in
                  let v = (relay x id bytes u).1 in
                  let step = drain_stream-step x laws fuel id t bytes more done in
                  let same = ap quic.unread first.conn in
                  elim (drain_stream-Ends fuel id v s first.stream
                    (omega (arith, same, less, enough))) [
                      | inl (good, left) ↦
                          let after = ap (λ r. quic.unread r.1.conn) step in
                          inl (ap (λ r. r.0) step ∙ good, omega (arith, left, same, less, after))
                      | inr (bad, broken) ↦
                          let all =
                            ap (λ c. (if id == 0 then bytes else []) ++ of_stream fuel id c)
                              first.conn
                            ∙ whole in
                          inr (
                            ap (λ r. r.0) step ∙ bad,
                            broken_at (sym (ap (λ r. r.1.world) step)) all
                                (BrokenOff-after x laws first broken),
                          )
                    ]
            ]
      ]

  read_streams-stop :
      (fuel id : ℕ) (ids : List ℕ) (t : Task x)
      → (drain_stream x fuel id t).0 ≡ err foreign
      → read_streams x fuel (id ∷ ids) t ≡ (err foreign, (drain_stream x fuel id t).1)
  unfolding read_streams
  read_streams-stop fuel id ids t bad = rw bad refl

  read_streams-step :
      (fuel id : ℕ) (ids : List ℕ) (t : Task x)
      → (drain_stream x fuel id t).0 ≡ ok tt
      → read_streams x fuel (id ∷ ids) t ≡ read_streams x fuel ids (drain_stream x fuel id t).1
  unfolding read_streams
  read_streams-step fuel id ids t good = rw good refl

  read_streams-Ends :
      (fuel : ℕ) (ids : List ℕ) (t : Task x) (c : x.Conn) (s : x.TcpStream)
      → t.tcp_stream ≡ some s
      → t.conn ≡ c
      → quic.unread t.conn < fuel
      → ((read_streams x fuel ids t).0 ≡ ok tt)
        ⊎ (((read_streams x fuel ids t).0 ≡ err foreign)
            × BrokenOff x laws s t.world (relayed x fuel ids c) (read_streams x fuel ids t).1.world)
  read_streams-Ends fuel [] t c s e same enough = unfold read_streams in inl refl
  read_streams-Ends fuel (id ∷ ids) t c s e same enough =
      let all = relayed-cons x fuel id ids c in
      let u = (drain_stream x fuel id t).1 in
      let of_first = ap (of_stream fuel id) same in
      elim (drain_stream-Ends fuel id t s e enough) [
        | inr (bad, broken) ↦
            let stop = read_streams-stop fuel id ids t bad in
            inr (
              ap (λ r. r.0) stop,
              broken_at (sym (ap (λ r. r.1.world) stop)) (sym all) (
                  BrokenOff-more x laws (relayed x fuel ids (stream_bytes x fuel id c).1)
                    (broken_at refl of_first broken)),
            )
        | inl (good, left) ↦
            let first = drain_stream-Relayed x laws fuel id t c s e same good in
            let step = read_streams-step fuel id ids t good in
            elim (read_streams-Ends fuel ids u _ s first.stream first.conn
              (omega (arith, left, enough))) [
                | inl done ↦ inl (ap (λ r. r.0) step ∙ done)
                | inr (bad, broken) ↦ inr (
                  ap (λ r. r.0) step ∙ bad,
                  broken_at (sym (ap (λ r. r.1.world) step)) (sym all)
                      (BrokenOff-after x laws first broken),
                )
              ]
      ]

  -- The client of the task has an established connection with a certificate, the task has its stream
  -- `s` to the broker, and QUIC takes the packet `p` and goes from `t.conn` to `c`.
  pub record IsServed (p : UdpPacket x.ScionAddr) (t : Task x) (s : x.TcpStream) (c : x.Conn)
      : Type 0 where
    pub from : SocketAddr
    pub to : SocketAddr
    pub src_is_ip : x.local_address p.src ≡ some from
    pub dst_is_ip : x.local_address p.dst ≡ some to
    pub taken : x.recv p.payload (record { from = from; to = to }) t.conn ≡ (true, c)
    pub shown : x.has_peer_cert c ≡ true
    pub established : x.is_established c ≡ true
    pub stream : t.tcp_stream ≡ some s

  served :
      (fuel : ℕ) (p : UdpPacket x.ScionAddr) (t : Task x) (s : x.TcpStream) (c : x.Conn)
      → IsServed p t s c
      → process_udp_packet x fuel p t ≡ read_streams x fuel (x.readable c) (with_conn x t c)
  unfolding process_udp_packet after_recv
  served fuel p t s c h = rw (h.src_is_ip, h.dst_is_ip, h.taken, h.shown, h.established) refl

  -- A packet of a client that is connected: if the fuel is more than QUIC then has to read, the
  -- handling ends well, and then it has written to the broker what QUIC had on stream 0, in order, and
  -- nothing of any other stream; or it ends with an error, and then a write to the broker has failed:
  -- what was written is what stands before the chunk of that write, which is the last thing done.
  pub process_udp_packet_delivers :
      (fuel : ℕ) (p : UdpPacket x.ScionAddr) (t : Task x) (s : x.TcpStream) (c : x.Conn)
      → IsServed p t s c
      → quic.unread c < fuel
      → let (outcome, t') = process_udp_packet x fuel p t in
        let new = relayed x fuel (x.readable c) c in
        ((outcome ≡ ok tt) × (laws.written s t'.world ≡ laws.written s t.world ++ new))
        ⊎ ((outcome ≡ err foreign) × BrokenOff x laws s t.world new t'.world)
  process_udp_packet_delivers fuel p t s c h enough =
      let whole = served fuel p t s c h in
      let u = with_conn x t c in
      elim (read_streams-Ends fuel (x.readable c) u c s h.stream refl enough) [
        | inr (bad, broken) ↦
            inr (ap (λ r. r.0) whole ∙ bad, broken_at (sym (ap (λ r. r.1.world) whole)) refl broken)
        | inl good ↦ inl (
          ap (λ r. r.0) whole ∙ good,
          ap (λ r. laws.written s r.1.world) whole
              ∙ read_streams-relayed x laws fuel (x.readable c) u c s h.stream refl good,
        )
      ]
