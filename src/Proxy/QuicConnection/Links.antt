-- ===== src/Proxy/QuicConnection/Links.antt =====
-- connection_mode_quic.rs: the configuration, the channel and the cancellation token of a task.
use mqtt_rust_scion.Prelude.{ℕ, zero, suc, ◌≡◌, Bool, true, false, none, some, List, [], ◌∷◌, arith}
use mqtt_rust_scion.Rust.{Bytes}
use mqtt_rust_scion.Net.{UdpPacket}
use mqtt_rust_scion.Extern.Crates.{Crates}
use mqtt_rust_scion.Proxy.QuicConnection.{
  Event, Flow, Task, Config, send_pending, connect_broker, relay, drain_stream, read_streams,
  await_client_cert, after_recv, process_udp_packet, on_tcp_readable, select, after_select, round,
  main_loop, handle_client_connection, timed_out, keepalive_tick, udp_packet, tcp_readable,
  cancelled, next, continue, exit,
}

module _ (x : Crates) where
  pub record Links (c : Config x) (rx : x.Channel) (token : x.CancelToken) (t : Task x)
      : Type 0 where
    pub same_config : t.config ≡ c
    pub same_rx : t.rx_udp_to_quic ≡ rx
    pub same_token : t.cancel_token ≡ token

  module _ (c : Config x) (rx : x.Channel) (token : x.CancelToken) where
    send_pending-Links :
        (fuel : ℕ) (t : Task x) → Links c rx token t → Links c rx token (send_pending x fuel t).1
    unfolding send_pending
    send_pending-Links zero t h = h
    send_pending-Links (suc fuel) t h = grind (arith, send_pending-Links fuel)

    connect_broker-Links :
        (t : Task x) → Links c rx token t → Links c rx token (connect_broker x t).1
    unfolding connect_broker
    connect_broker-Links t h = ground arith

    relay-Links :
        (id : ℕ) (bytes : Bytes) (t : Task x)
        → Links c rx token t
        → Links c rx token (relay x id bytes t).1
    unfolding relay
    relay-Links id bytes t h = ground arith

    drain_stream-Links :
        (fuel id : ℕ) (t : Task x)
        → Links c rx token t
        → Links c rx token (drain_stream x fuel id t).1
    unfolding drain_stream
    drain_stream-Links zero id t h = h
    drain_stream-Links (suc fuel) id t h = grind (arith, drain_stream-Links fuel, relay-Links)

    read_streams-Links :
        (fuel : ℕ) (ids : List ℕ) (t : Task x)
        → Links c rx token t
        → Links c rx token (read_streams x fuel ids t).1
    unfolding read_streams
    read_streams-Links fuel [] t h = h
    read_streams-Links fuel (id ∷ ids) t h =
        grind (arith, drain_stream-Links fuel id, read_streams-Links fuel ids)

    after_recv-Links :
        (fuel : ℕ) (t : Task x) → Links c rx token t → Links c rx token (after_recv x fuel t).1
    unfolding after_recv await_client_cert
    after_recv-Links fuel t h = ground (arith, read_streams-Links fuel (x.readable t.conn) t)

    process_udp_packet-Links :
        (fuel : ℕ) (p : UdpPacket x.ScionAddr) (t : Task x)
        → Links c rx token t
        → Links c rx token (process_udp_packet x fuel p t).1
    unfolding process_udp_packet
    process_udp_packet-Links fuel p t h = grind (arith, after_recv-Links fuel)

    on_tcp_readable-Links :
        (ready : Bool) (t : Task x)
        → Links c rx token t
        → Links c rx token (on_tcp_readable x ready t).1
    unfolding on_tcp_readable
    on_tcp_readable-Links false t h = ground arith
    on_tcp_readable-Links true t h = ground arith

    select-Links :
        (fuel : ℕ) (e : Event x.ScionAddr) (t : Task x)
        → Links c rx token t
        → Links c rx token (select x fuel e t).1
    unfolding select
    select-Links fuel timed_out t h = ground arith
    select-Links fuel keepalive_tick t h = ground arith
    select-Links fuel (udp_packet none) t h = h
    select-Links fuel (udp_packet (some p)) t h = grind (arith, process_udp_packet-Links fuel p)
    select-Links fuel (tcp_readable ready) t h = on_tcp_readable-Links ready t h
    select-Links fuel cancelled t h = h

    after_select-Links :
        (fuel : ℕ) (flow : Flow) (t : Task x)
        → Links c rx token t
        → Links c rx token (after_select x fuel flow t).1
    unfolding after_select
    after_select-Links fuel continue t h = h
    after_select-Links fuel exit t h = h
    after_select-Links fuel next t h = grind (arith, send_pending-Links fuel)

    round-Links :
        (fuel : ℕ) (e : Event x.ScionAddr) (t : Task x)
        → Links c rx token t
        → Links c rx token (round x fuel e t).1
    unfolding round
    round-Links fuel e t h = grind (arith, select-Links fuel e, after_select-Links fuel)

    pub main_loop-Links :
        (fuel : ℕ) (events : List (Event x.ScionAddr)) (t : Task x)
        → Links c rx token t
        → Links c rx token (main_loop x fuel events t).1
    unfolding main_loop
    main_loop-Links fuel [] t h = h
    main_loop-Links fuel (e ∷ events) t h =
        ground (arith, round-Links fuel e t, main_loop-Links fuel events (round x fuel e t).1)

    pub handle_client_connection-Links :
        (fuel : ℕ) (events : List (Event x.ScionAddr)) (t : Task x)
        → Links c rx token t
        → Links c rx token (handle_client_connection x fuel events t).1
    unfolding handle_client_connection
    handle_client_connection-Links fuel events t h =
        grind (arith, send_pending-Links fuel, connect_broker-Links, main_loop-Links fuel events)
