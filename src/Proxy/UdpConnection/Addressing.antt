-- ===== src/Proxy/UdpConnection/Addressing.antt =====
-- Where the packets of the broker go in the mode `UdpEndpoint`.
use mqtt_rust_scion.Prelude.{
  ◌≡◌, refl, sym, ap, ◌∙◌, Bool, true, Bool-cases, inl, inr, none, some, List, [], ◌∷◌,
  if◌then◌else◌, arith,
}
use mqtt_rust_scion.Rust.{Bytes, SocketAddr, Outcome, ok, err, foreign}
use mqtt_rust_scion.Net.{UdpPacket}
use mqtt_rust_scion.Extern.Crates.{Crates}
use mqtt_rust_scion.Proxy.UdpConnection.{
  Event, timed_out, udp_packet, broker_packet, cancelled, Connection, Task, to_broker, to_client,
  round, main_loop,
}

module _ (x : Crates) where
  -- The source of the last packet of the client among the events, or `addr` where there is none.
  abbrev pub latest : List (Event x.ScionAddr) → x.ScionAddr → x.ScionAddr
  latest [] addr = addr
  latest (udp_packet (some p) ∷ events) addr = latest events p.src
  latest (_ ∷ events) addr = latest events addr

  abbrev at_address : x.ScionAddr → Connection x → Connection x
  at_address addr c = record c { config = record c.config { remote_client_addr = addr } }

  -- `t'` is `t` with the client at `addr`, in any world.
  record Moved (addr : x.ScionAddr) (t t' : Task x) : Type 0 where
    pub connection : t'.connection ≡ at_address addr t.connection

  to_broker-Moved :
      (p : UdpPacket x.ScionAddr) (t : Task x)
      → (to_broker x p t).0 ≡ ok tt
      → (to_broker x p t).1.connection ≡ at_address p.src t.connection
  unfolding to_broker
  to_broker-Moved p t good = elim (Bool-cases (x.addr_eq.same p.src t.config.remote_client_addr)) [
    | inr differs ↦ ground arith
    | inl same ↦
        let src = (x.addr_eq.same_iff p.src t.config.remote_client_addr).0 same in ground arith
  ]

  round-Moved :
      (e : Event x.ScionAddr) (t : Task x)
      → (round x e t).0 ≡ ok true
      → Moved (latest (e ∷ []) t.config.remote_client_addr) t (round x e t).1
  unfolding round
  round-Moved timed_out t good = ground arith
  round-Moved (udp_packet none) t good = ground arith
  round-Moved (udp_packet (some p)) t good = record {
    connection = ground (arith, to_broker-Moved p t);
  }
  round-Moved (broker_packet none) t good = ground arith
  round-Moved (broker_packet (some (bytes, src))) t good = unfold to_client in ground arith
  round-Moved cancelled t good = ground arith

  main_loop-step :
      (e : Event x.ScionAddr) (events : List (Event x.ScionAddr)) (t : Task x)
      → (main_loop x (e ∷ events) t).0 ≡ ok true
      → ((round x e t).0 ≡ ok true)
        × (main_loop x (e ∷ events) t ≡ main_loop x events (round x e t).1)
  unfolding main_loop
  main_loop-step e events t good = ground arith

  latest-cons :
      (e : Event x.ScionAddr) (events : List (Event x.ScionAddr)) (addr : x.ScionAddr)
      → latest events (latest (e ∷ []) addr) ≡ latest (e ∷ events) addr
  latest-cons timed_out events addr = refl
  latest-cons (udp_packet none) events addr = refl
  latest-cons (udp_packet (some p)) events addr = refl
  latest-cons (broker_packet b) events addr = refl
  latest-cons cancelled events addr = refl

  main_loop-Moved :
      (events : List (Event x.ScionAddr)) (t : Task x)
      → (main_loop x events t).0 ≡ ok true
      → Moved (latest events t.config.remote_client_addr) t (main_loop x events t).1
  main_loop-Moved [] t good = unfold main_loop in record { connection = refl }
  main_loop-Moved (e ∷ events) t good =
      let (more, step) = main_loop-step e events t good in
      let first = round-Moved e t more in
      let rest = main_loop-Moved events (round x e t).1 (ap (λ r. r.0) (sym step) ∙ good) in
      record {
        connection =
            ap (λ r. r.1.connection) step
            ∙ rest.connection
            ∙ ap (λ c. at_address (latest events c.config.remote_client_addr) c) first.connection
            ∙ ap (λ addr. at_address addr t.connection)
                (latest-cons e events t.config.remote_client_addr);
      }

  -- What a task with the connection `c` sends to its client, and how that ends.
  abbrev pub reply : Connection x → Bytes → Task x → Outcome Bool × Task x
  reply c bytes t =
      let packet : UdpPacket x.ScionAddr = record {
        src = c.config.local_proxy_addr;
        dst = c.config.remote_client_addr;
        payload = bytes;
      } in
      let (sent, w) = x.send_wait c.tx_quic_to_udp packet t.world in
      ((if sent then ok true else err foreign), record t { world = w })

  round-reply :
      (bytes : Bytes) (src : SocketAddr) (t : Task x)
      → round x (broker_packet (some (bytes, src))) t ≡ reply t.connection bytes t
  unfolding round to_client
  round-reply bytes src t = ground arith

  -- After any events through which the loop keeps running, its round for a packet of the broker sends
  -- the bytes to the source of the client's last packet, from the proxy's own address, and the loop
  -- runs on unless the channel to the main task is closed.
  pub main_loop-replies :
      (events : List (Event x.ScionAddr)) (t : Task x) (bytes : Bytes) (src : SocketAddr)
      → (main_loop x events t).0 ≡ ok true
      → let t' = (main_loop x events t).1 in
        let addr = latest events t.config.remote_client_addr in
        round x (broker_packet (some (bytes, src))) t'
        ≡ reply
            (record t.connection { config = record t.config { remote_client_addr = addr } })
            bytes
            t'
  main_loop-replies events t bytes src good =
      round-reply bytes src _
      ∙ ap (λ c. reply c bytes (main_loop x events t).1) (main_loop-Moved events t good).connection
