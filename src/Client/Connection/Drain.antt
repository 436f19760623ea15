-- ===== src/Client/Connection/Drain.antt =====
-- client/mod.rs, the loop on `stream_recv`: its fuel.
use mqtt_rust_scion.Prelude.{
  ℕ, zero, suc, ◌<◌, ◌≤◌, ◌≡◌, refl, ◌∙◌, Option, none, some, List, [], ◌∷◌, nat_eq, arith,
}
use mqtt_rust_scion.Rust.{Bytes}
use mqtt_rust_scion.Exec.{Exec, ◌>>=◌, ◌>>◌, pure, pure-ok}
use mqtt_rust_scion.Exec.Settles.{
  Quick-pure, Settles, Quick-Settles, Settles-suc, Settles-bind, Settles-then,
}
use mqtt_rust_scion.Net.{max_datagram_size}
use mqtt_rust_scion.Extern.Mqtt.{
  MqttEvent, Packet, puback, pubrec, suback, request_send_packet, notify_packet_received,
  request_close,
}
use mqtt_rust_scion.Extern.Quiche.{QuicheLaws}
use mqtt_rust_scion.Extern.ClientCrates.{ClientCrates}
use mqtt_rust_scion.Client.Connection.{
  Task, on_conn, on_mqtt, complete, on_packet, handle_event, handle_events, drain_stream,
}
use mqtt_rust_scion.Client.Connection.Parts.{quic_call, protocol_call, handle_events-Quick}

module _ (x : ClientCrates) where
  module _ (laws : QuicheLaws x.quiche) where
    unread-on_packet :
        (p : Packet) (t : Task x) → laws.unread (on_packet x p t).conn ≤ laws.unread t.conn
    unfolding on_packet complete
    unread-on_packet (puback i r) t = ground arith
    unread-on_packet (pubrec i r) t = ground arith
    unread-on_packet (suback i r) t = ground arith
    unread-on_packet _ t = omega arith

    unread-handle_event :
        (e : MqttEvent) (t : Task x) → laws.unread (handle_event x e t).conn ≤ laws.unread t.conn
    unfolding handle_event
    unread-handle_event (request_send_packet bytes) t = laws.unread-stream_send 0 bytes t.conn
    unread-handle_event (notify_packet_received p) t = unread-on_packet p t
    unread-handle_event _ t = omega arith

    -- Handling events gives QUIC nothing to read.
    unread-handle_events :
        (events : List MqttEvent) (t : Task x)
        → laws.unread (handle_events x events t).1.conn ≤ laws.unread t.conn
    unfolding handle_events
    unread-handle_events [] t = omega arith
    unread-handle_events (request_close ∷ events) t = omega arith
    unread-handle_events (e ∷ events) t =
        omega (arith, unread-handle_event e t, unread-handle_events events (handle_event x e t))

    -- What follows a read of the stream, with the fuel of the next ones.
    abbrev after_read : ℕ → Option Bytes → Exec (Task x) (Unit {0})
    after_read fuel chunk = elim chunk [
      | none ↦ pure tt
      | some bytes ↦ do
        (events, leftover) ← on_mqtt x (x.mqtt_recv bytes)
        handle_events x events
        drain_stream x fuel
    ]

    after_read-Settles :
        (m : ℕ) (chunk : Option Bytes) (t : Task x)
        → ((bytes : Bytes) → chunk ≡ some bytes → laws.unread t.conn < m)
        → ((u : Task x) → laws.unread u.conn < m → Settles (drain_stream x) u)
        → Settles (λ n. after_read n chunk) t
    after_read-Settles m none t left more = Quick-Settles _ t (Quick-pure tt)
    after_read-Settles m (some bytes) t left more =
        let read = on_mqtt x (x.mqtt_recv bytes) in
        Settles-bind (λ n r. handle_events x r.0 >> drain_stream x n) (λ n. read) t
          (Quick-Settles read t (protocol_call x (x.mqtt_recv bytes)))
          λ r got.
            let u = (read t).1 in
            Settles-then (λ n. handle_events x r.0) (drain_stream x) u
              (Quick-Settles (handle_events x r.0) u (handle_events-Quick x r.0))
              λ a done. more _ (omega (arith, unread-handle_events r.0 u, left bytes refl))

    pub drain_stream-Settles :
        (m : ℕ) (t : Task x) → laws.unread t.conn < m → Settles (drain_stream x) t
    unfolding drain_stream
    drain_stream-Settles zero t lt = absurd (omega arith)
    drain_stream-Settles (suc m) t lt =
        let more = drain_stream-Settles m in
        let read = on_conn x (x.stream_recv 0 max_datagram_size) in
        Settles-suc (drain_stream x) t (
          Settles-bind after_read (λ n. read) t
            (Quick-Settles read t (quic_call x (x.stream_recv 0 max_datagram_size)))
            λ chunk got.
              after_read-Settles m chunk (read t).1
                (λ bytes e. omega (
                  arith,
                  laws.unread-stream_recv 0 max_datagram_size t.conn bytes (pure-ok _ t got ∙ e),
                ))
                more)
