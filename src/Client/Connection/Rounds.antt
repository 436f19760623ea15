-- ===== src/Client/Connection/Rounds.antt =====
-- client/mod.rs: the fuel of the rounds of the loop.
use mqtt_rust_scion.Prelude.{
  ℕ, zero, suc, ◌<◌, ◌≡◌, refl, ◌∙◌, true, false, List, [], ◌∷◌, if◌then◌else◌, ◌==◌, nat_eq, arith,
}
use mqtt_rust_scion.Rust.{Bytes, SocketAddr, foreign}
use mqtt_rust_scion.Exec.{Exec, ◌>>◌, pure, gets, ok_or, check, pure-ok}
use mqtt_rust_scion.Exec.Settles.{
  quick_rules, Quick-pure, Quick-gets, Quick-ok_or, Quick-check, Quick-modify, Settles,
  Quick-Settles, Settles-suc, Settles-if, Settles-cases, Settles-bind, Settles-first, Settles-then,
}
use mqtt_rust_scion.Net.{max_datagram_size}
use mqtt_rust_scion.Extern.Quiche.{Sent, packet, finished, failed, QuicheLaws}
use mqtt_rust_scion.Extern.ClientCrates.{ClientCrates}
use mqtt_rust_scion.Client.Connection.{
  Event, timed_out, keepalive_tick, datagram, request, Task, on_conn, drain_stream, read_stream,
  read_streams, connect_once, read_established, process_udp_packet, send_packet, send_pending,
  select, after_select, round, send_first, main_loop, connection_handling,
}
use mqtt_rust_scion.Client.Connection.Parts.{
  quic_call, connect_once-Quick, start_request-Quick, send_packet-Quick, send_first-Quick,
}
use mqtt_rust_scion.Client.Connection.Drain.{drain_stream-Settles}

module _ (x : ClientCrates) where
  module _ (laws : QuicheLaws x.quiche) where
    read_streams-Settles : (ids : List ℕ) (t : Task x) → Settles (λ n. read_streams x n ids) t
    unfolding read_streams read_stream
    read_streams-Settles [] t = Quick-Settles _ t (Quick-pure tt)
    read_streams-Settles (id ∷ ids) t =
        Settles-then (λ n. read_stream x n id) (λ n. read_streams x n ids) t
          (Settles-if (id == 0) (drain_stream x) (λ n. pure tt) t
            (drain_stream-Settles x laws (suc (laws.unread t.conn)) t (omega arith))
            (Quick-Settles _ t (Quick-pure tt)))
          λ a done. read_streams-Settles ids _

    read_established-Settles : (t : Task x) → Settles (read_established x) t
    unfolding read_established
    read_established-Settles t =
        Settles-first
          (λ n conn. if x.is_established conn then read_streams x n (x.readable conn) else pure tt)
          (gets (λ t. t.conn)) t (Quick-gets (λ t. t.conn))
          λ conn got.
            Settles-if (x.is_established conn) (λ n. read_streams x n (x.readable conn))
              (λ n. pure tt) t (read_streams-Settles (x.readable conn) t)
              (Quick-Settles _ t (Quick-pure tt))

    process_udp_packet-Settles :
        (bytes : Bytes) (src local_addr : x.ScionAddr) (t : Task x)
        → Settles (λ n. process_udp_packet x n bytes src local_addr) t
    unfolding process_udp_packet
    process_udp_packet-Settles bytes src local_addr t =
        Settles-first _ (ok_or (x.local_address src) _) t (Quick-ok_or (x.local_address src) _)
          λ from got.
            Settles-first _ (ok_or (x.local_address local_addr) _) t
              (Quick-ok_or (x.local_address local_addr) _)
              λ to got.
                let recv = on_conn x (x.recv bytes (record { from = from; to = to })) in
                Settles-first _ recv t (quic_call x _) λ accepted got.
                  Settles-then (λ n. check accepted foreign) _ (recv t).1
                    (Quick-Settles _ _ (Quick-check accepted foreign))
                    λ a got.
                      Settles-then (λ n. connect_once x) (read_established x) _
                        (Quick-Settles _ _ (connect_once-Quick x))
                        λ a got. read_established-Settles _

    -- What follows a `send`, with the fuel of the next ones.
    abbrev after_send : ℕ → Sent → Exec (Task x) (Unit {0})
    after_send fuel sent = elim sent [
      | finished ↦ pure tt
      | failed ↦ pure tt
      | packet bytes from to ↦ do send_packet x bytes to "send failed"; send_pending x fuel
    ]

    after_send-Settles :
        (m : ℕ) (sent : Sent) (t : Task x)
        → ((bytes : Bytes) (from to : SocketAddr)
            → sent ≡ packet bytes from to
            → laws.unsent t.conn < m)
        → ((u : Task x) → laws.unsent u.conn < m → Settles (send_pending x) u)
        → Settles (λ n. after_send n sent) t
    after_send-Settles m finished t left more = Quick-Settles _ t (Quick-pure tt)
    after_send-Settles m failed t left more = Quick-Settles _ t (Quick-pure tt)
    after_send-Settles m (packet bytes from to) t left more =
        Settles-then (λ n. send_packet x bytes to "send failed") (send_pending x) t
          (Quick-Settles _ t (send_packet-Quick x bytes to "send failed"))
          λ a done. more _ (left bytes from to refl)

    send_pending-Settles :
        (m : ℕ) (t : Task x) → laws.unsent t.conn < m → Settles (send_pending x) t
    unfolding send_pending
    send_pending-Settles zero t lt = absurd (omega arith)
    send_pending-Settles (suc m) t lt =
        let more = send_pending-Settles m in
        let send = on_conn x (x.send max_datagram_size) in
        Settles-suc (send_pending x) t (
          Settles-bind after_send (λ n. send) t
            (Quick-Settles send t (quic_call x (x.send max_datagram_size)))
            λ sent got.
              after_send-Settles m sent (send t).1
                (λ bytes from to e. omega (
                  arith,
                  laws.unsent-send max_datagram_size t.conn bytes from to (pure-ok _ t got ∙ e),
                ))
                more)

    after_select-Settles : (t : Task x) → Settles (after_select x) t
    unfolding after_select
    after_select-Settles t =
        Settles-first (λ n closed. if closed then pure false else send_pending x n >> pure true)
          (gets (λ t. x.is_closed t.conn)) t (Quick-gets (λ t. x.is_closed t.conn))
          λ closed got.
            Settles-if closed (λ n. pure false) (λ n. send_pending x n >> pure true) t
              (Quick-Settles _ t (Quick-pure false))
              (Settles-then (send_pending x) (λ n. pure true) t
                (send_pending-Settles (suc (laws.unsent t.conn)) t (omega arith))
                λ a done. Quick-Settles _ _ (Quick-pure true))

    select-Settles :
        (local_addr : x.ScionAddr) (e : Event x.ScionAddr x.Notify) (t : Task x)
        → Settles (λ n. select x n local_addr e) t
    unfolding select
    select-Settles local_addr timed_out t = Quick-Settles _ t (Quick-modify _)
    select-Settles local_addr keepalive_tick t =
        Quick-Settles _ t (search (quick_rules, quic_call) depth 24)
    select-Settles local_addr (datagram bytes src) t =
        process_udp_packet-Settles bytes src local_addr t
    select-Settles local_addr (request req n) t = Quick-Settles _ t (start_request-Quick x req n)

    round-Settles :
        (local_addr : x.ScionAddr) (e : Event x.ScionAddr x.Notify) (t : Task x)
        → Settles (λ n. round x n local_addr e) t
    unfolding round
    round-Settles local_addr e t =
        Settles-then (λ n. select x n local_addr e) (after_select x) t
          (select-Settles local_addr e t) λ a done. after_select-Settles _

    main_loop-Settles :
        (local_addr : x.ScionAddr) (events : List (Event x.ScionAddr x.Notify)) (t : Task x)
        → Settles (λ n. main_loop x n local_addr events) t
    unfolding main_loop
    main_loop-Settles local_addr [] t = Quick-Settles _ t (Quick-pure true)
    main_loop-Settles local_addr (e ∷ events) t =
        Settles-bind
          (λ n again. elim again [ true ↦ main_loop x n local_addr events | false ↦ pure false ])
          (λ n. round x n local_addr e) t (round-Settles local_addr e t)
          λ again got.
            Settles-cases again (λ n. main_loop x n local_addr events) (λ n. pure false) _
              (main_loop-Settles local_addr events _) (Quick-Settles _ _ (Quick-pure false))

    -- Whatever the events of its loop are, the task of a client comes to an end of them: there is an amount of
    -- fuel with which, and with any more of which, it ends in the same way and not for want of fuel.
    pub connection_handling-Settles :
        (local_addr : x.ScionAddr) (events : List (Event x.ScionAddr x.Notify)) (t : Task x)
        → Settles (λ n. connection_handling x n local_addr events) t
    unfolding connection_handling
    connection_handling-Settles local_addr events t =
        Settles-then (λ n. send_first x) (λ n. main_loop x n local_addr events) t
          (Quick-Settles _ t (send_first-Quick x)) λ a got. main_loop-Settles local_addr events _
