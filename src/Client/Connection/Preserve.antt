-- ===== src/Client/Connection/Preserve.antt =====
-- client/mod.rs: what the rounds of the task keep. A predicate that MQTT events, the calls of QUIC and
-- of the MQTT crate, and sent packets keep is kept by all of the task but the start of a request.
use Prim.Native.String.{String}
use mqtt_rust_scion.Prelude.{ℕ, zero, suc, true, false, List, [], ◌∷◌, nat_eq}
use mqtt_rust_scion.Rust.{Bytes, SocketAddr, foreign}
use mqtt_rust_scion.Exec.{Exec, pure, throw, modify}
use mqtt_rust_scion.Exec.Keeps.{
  Keeps, keeps_rules, Keeps-modify, Keeps-pure, Keeps-throw, Keeps-bind, Keeps-then, Keeps-option,
  Keeps-cases,
}
use mqtt_rust_scion.Net.{max_datagram_size}
use mqtt_rust_scion.Extern.Quiche.{Sent, packet, finished, failed}
use mqtt_rust_scion.Extern.Mqtt.{MqttMessage, MqttEvent, request_close}
use mqtt_rust_scion.Extern.ClientCrates.{ClientCrates}
use mqtt_rust_scion.Client.Connection.{
  Event, timed_out, keepalive_tick, datagram, request, Task, with_conn, on_conn, on_mqtt, on_world,
  handle_event, handle_events, start_subscribe, start_publish, start_request, send_connect,
  drain_stream, read_stream, read_streams, connect_once, read_established, process_udp_packet,
  send_packet, send_first, send_pending, select, after_select, round, main_loop,
}

module _ (x : ClientCrates) (P : Task x → Type 0) where
  pub record IsStable : Type 0 where
    pub on_event : (e : MqttEvent) (t : Task x) → P t → P (handle_event x e t)
    pub on_quic : (c : x.Conn) (t : Task x) → P t → P (with_conn x c t)
    pub on_protocol :
        (m : x.MqttConn) (t : Task x)
        → P t
        → P (record t { connection = record t.connection { mqtt_conn = m } })
    pub on_connect :
        (t : Task x)
        → P t
        → P (record t { connection = record t.connection { mqtt_init_sent = true } })
    pub on_send :
        (bytes : Bytes) (a : x.ScionAddr) (t : Task x)
        → P t
        → P (record t { world = (x.scion_send_to bytes a t.world).1 })

  module _ (stable : IsStable) where
    quic_call : {A : Type 0} (f : x.Conn → A × x.Conn) → Keeps P (on_conn x f)
    quic_call f = record { at = λ t h. stable.on_quic (f t.conn).1 t h }

    protocol_call : {A : Type 0} (f : x.MqttConn → A × x.MqttConn) → Keeps P (on_mqtt x f)
    protocol_call f = record { at = λ t h. stable.on_protocol (f t.mqtt_conn).1 t h }

    send_call : (bytes : Bytes) (a : x.ScionAddr) → Keeps P (on_world x (x.scion_send_to bytes a))
    send_call bytes a = record { at = stable.on_send bytes a }

    pub handle_events-Keeps : (events : List MqttEvent) → Keeps P (handle_events x events)
    unfolding handle_events
    handle_events-Keeps [] = Keeps-pure tt
    handle_events-Keeps (request_close ∷ events) = Keeps-pure tt
    handle_events-Keeps (e ∷ events) =
        Keeps-then (modify (handle_event x e)) (handle_events x events)
          (Keeps-modify (handle_event x e) (stable.on_event e)) (handle_events-Keeps events)

    send_connect-Keeps : Keeps P (send_connect x)
    unfolding send_connect
    send_connect-Keeps =
        search (keeps_rules, protocol_call, handle_events-Keeps, Keeps-modify, stable.on_connect)
          depth 24

    pub start_subscribe-Keeps : (topic : String) → Keeps P (start_subscribe x topic)
    unfolding start_subscribe
    start_subscribe-Keeps topic = search (keeps_rules, protocol_call, handle_events-Keeps) depth 24

    pub start_publish-Keeps : (m : MqttMessage) → Keeps P (start_publish x m)
    unfolding start_publish
    start_publish-Keeps m = search (keeps_rules, protocol_call, handle_events-Keeps) depth 24

    drain_stream-Keeps : (fuel : ℕ) → Keeps P (drain_stream x fuel)
    unfolding drain_stream
    drain_stream-Keeps zero = record { at = λ t h. h }
    drain_stream-Keeps (suc fuel) =
        let more = drain_stream-Keeps fuel in
        Keeps-bind (on_conn x (x.stream_recv 0 max_datagram_size)) _
          (quic_call (x.stream_recv 0 max_datagram_size))
          λ chunk. Keeps-option chunk (pure tt) _ (Keeps-pure tt) λ bytes.
            Keeps-bind (on_mqtt x (x.mqtt_recv bytes)) _ (protocol_call (x.mqtt_recv bytes)) λ r.
              Keeps-then (handle_events x r.0) (drain_stream x fuel) (handle_events-Keeps r.0) more

    read_stream-Keeps : (fuel id : ℕ) → Keeps P (read_stream x fuel id)
    unfolding read_stream
    read_stream-Keeps fuel id = search (keeps_rules, drain_stream-Keeps) depth 24

    read_streams-Keeps : (fuel : ℕ) (ids : List ℕ) → Keeps P (read_streams x fuel ids)
    unfolding read_streams
    read_streams-Keeps fuel [] = Keeps-pure tt
    read_streams-Keeps fuel (id ∷ ids) =
        Keeps-then (read_stream x fuel id) (read_streams x fuel ids) (read_stream-Keeps fuel id)
          (read_streams-Keeps fuel ids)

    connect_once-Keeps : Keeps P (connect_once x)
    unfolding connect_once
    connect_once-Keeps = search (keeps_rules, send_connect-Keeps) depth 24

    pub read_established-Keeps : (fuel : ℕ) → Keeps P (read_established x fuel)
    unfolding read_established
    read_established-Keeps fuel = search (keeps_rules, read_streams-Keeps) depth 24

    process_udp_packet-Keeps :
        (fuel : ℕ) (bytes : Bytes) (src local_addr : x.ScionAddr)
        → Keeps P (process_udp_packet x fuel bytes src local_addr)
    unfolding process_udp_packet
    process_udp_packet-Keeps fuel bytes src local_addr =
        search (keeps_rules, quic_call, connect_once-Keeps, read_established-Keeps) depth 24

    send_packet-Keeps :
        (bytes : Bytes) (to : SocketAddr) (text : String) → Keeps P (send_packet x bytes to text)
    send_packet-Keeps bytes to text = search (keeps_rules, send_call) depth 24

    Keeps-sent :
        {A : Type 0} (s : Sent) (m n : Exec (Task x) A)
        (f : Bytes → SocketAddr → SocketAddr → Exec (Task x) A)
        → Keeps P m
        → Keeps P n
        → ((bytes : Bytes) (from to : SocketAddr) → Keeps P (f bytes from to))
        → Keeps P (elim s [ finished ↦ m | failed ↦ n | packet bytes from to ↦ f bytes from to ])
    Keeps-sent finished m n f km kn kf = km
    Keeps-sent failed m n f km kn kf = kn
    Keeps-sent (packet bytes from to) m n f km kn kf = kf bytes from to

    pub send_first-Keeps : Keeps P (send_first x)
    unfolding send_first
    send_first-Keeps =
        Keeps-bind (on_conn x (x.send max_datagram_size)) _ (quic_call (x.send max_datagram_size))
          λ sent.
            Keeps-sent sent (throw foreign) (throw foreign) _ (Keeps-throw foreign)
              (Keeps-throw foreign)
              λ bytes from to. send_packet-Keeps bytes to "initial send failed"

    pub send_pending-Keeps : (fuel : ℕ) → Keeps P (send_pending x fuel)
    unfolding send_pending
    send_pending-Keeps zero = record { at = λ t h. h }
    send_pending-Keeps (suc fuel) =
        let more = send_pending-Keeps fuel in
        Keeps-bind (on_conn x (x.send max_datagram_size)) _ (quic_call (x.send max_datagram_size))
          λ sent.
            Keeps-sent sent (pure tt) (pure tt) _ (Keeps-pure tt) (Keeps-pure tt) λ bytes from to.
              Keeps-then (send_packet x bytes to "send failed") (send_pending x fuel)
                (send_packet-Keeps bytes to "send failed") more

    -- What remains to be shown of an event of the loop: nothing, but for the start of a request.
    abbrev pub Starts : Event x.ScionAddr x.Notify → Type 0
    Starts (request req n) = Keeps P (start_request x req n)
    Starts _ = Unit

    select-Keeps :
        (fuel : ℕ) (local_addr : x.ScionAddr) (e : Event x.ScionAddr x.Notify)
        → Starts e
        → Keeps P (select x fuel local_addr e)
    unfolding select
    select-Keeps fuel local_addr timed_out s = record {
      at = λ t h. stable.on_quic (x.on_timeout t.conn) t h;
    }
    select-Keeps fuel local_addr keepalive_tick s = search (keeps_rules, quic_call) depth 24
    select-Keeps fuel local_addr (datagram bytes src) s =
        process_udp_packet-Keeps fuel bytes src local_addr
    select-Keeps fuel local_addr (request req n) s = s

    pub after_select-Keeps : (fuel : ℕ) → Keeps P (after_select x fuel)
    unfolding after_select
    after_select-Keeps fuel = search (keeps_rules, send_pending-Keeps) depth 24

    pub round-Keeps :
        (fuel : ℕ) (local_addr : x.ScionAddr) (e : Event x.ScionAddr x.Notify)
        → Starts e
        → Keeps P (round x fuel local_addr e)
    unfolding round
    round-Keeps fuel local_addr e s =
        let selected = select-Keeps fuel local_addr e s in
        Keeps-then (select x fuel local_addr e) (after_select x fuel) selected
          (after_select-Keeps fuel)

    abbrev pub AllStart : List (Event x.ScionAddr x.Notify) → Type 0
    AllStart [] = Unit
    AllStart (e ∷ events) = Starts e × AllStart events

    pub main_loop-Keeps :
        (fuel : ℕ) (local_addr : x.ScionAddr) (events : List (Event x.ScionAddr x.Notify))
        → AllStart events
        → Keeps P (main_loop x fuel local_addr events)
    unfolding main_loop
    main_loop-Keeps fuel local_addr [] s = Keeps-pure true
    main_loop-Keeps fuel local_addr (e ∷ events) (first, rest) =
        let more = main_loop-Keeps fuel local_addr events rest in
        Keeps-bind (round x fuel local_addr e) _ (round-Keeps fuel local_addr e first) λ again.
          Keeps-cases again (main_loop x fuel local_addr events) (pure false) more
            (Keeps-pure false)
