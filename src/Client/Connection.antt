-- ===== src/Client/Connection.antt =====
-- client/mod.rs, `Connection`: the task of a client that speaks MQTT over stream 0 of a QUIC
-- connection, carries out the requests of the client and hands it the messages that arrive.
pub mod Events
pub mod Messages
pub mod Requests
pub mod Preserve
pub mod QosOne
pub mod ConnectOnce
pub mod Parts
pub mod Drain
pub mod Rounds
use Prim.Native.String.{String}
use mqtt_rust_scion.Prelude.{
  ℕ, zero, suc, Bool, true, false, not, ◌&&◌, Option, none, some, List, [], ◌∷◌, if◌then◌else◌,
  ◌==◌, nat_eq,
}
use mqtt_rust_scion.Rust.{Bytes, SocketAddr, message, foreign}
use mqtt_rust_scion.Exec.{
  Exec, ◌>>=◌, ◌>>◌, pure, throw, out_of_fuel, gets, ok_or, unwrap, modify, check,
}
use mqtt_rust_scion.Net.{max_datagram_size}
use mqtt_rust_scion.Extern.Quiche.{Sent, packet, finished, failed}
use mqtt_rust_scion.Extern.Mqtt.{
  Qos, at_most_once, at_least_once, exactly_once, MqttMessage, Packet, connack, puback, pubrec,
  pubcomp, suback, publish, subscribe, other, MqttEvent, request_send_packet,
  notify_packet_received, request_close, notify_error,
}
use mqtt_rust_scion.Extern.ClientCrates.{ClientCrates}

pub data Request : Type 0 where
  subscribe_to : String → Request
  publish_message : MqttMessage → Request

abbrev pub is_at_least_once : Qos → Bool
is_at_least_once at_least_once = true
is_at_least_once _ = false

abbrev pub is_exactly_once : Qos → Bool
is_exactly_once exactly_once = true
is_exactly_once _ = false

-- The requests that PUBACK, PUBREC and SUBACK complete.
abbrev pub awaits_puback : Request → Bool
awaits_puback (publish_message m) = is_at_least_once m.qos
awaits_puback (subscribe_to topic) = false

abbrev pub awaits_pubrec : Request → Bool
awaits_pubrec (publish_message m) = is_exactly_once m.qos
awaits_pubrec (subscribe_to topic) = false

abbrev pub awaits_suback : Request → Bool
awaits_suback (publish_message m) = false
awaits_suback (subscribe_to topic) = true

-- The branches of the `select!`, with what the awaited call returned.
pub data Event (A N : Type 0) : Type 0 where
  timed_out : Event A N
  keepalive_tick : Event A N
  datagram : Bytes → A → Event A N
  request : Request → N → Event A N

module _ (x : ClientCrates) where
  -- The SCION socket is in the world, and the requests that arrive are among the events.
  pub record Connection : Type 0 where
    pub remote : x.ScionAddr
    pub conn : x.Conn
    pub mqtt_conn : x.MqttConn
    pub client_id : String
    pub mqtt_init_sent : Bool
    pub connect_notify : x.Notify
    pub message_sender : x.MessageChannel
    pub current_request : Option (Request × ℕ × x.Notify)

  pub record Task : Type 0 where
    pub connection : Connection
    pub open connection use *
    pub world : x.World

  abbrev pub with_conn : x.Conn → Task → Task
  with_conn c t = record t { connection = record t.connection { conn = c } }

  abbrev pub with_request : Option (Request × ℕ × x.Notify) → Task → Task
  with_request r t = record t { connection = record t.connection { current_request = r } }

  abbrev pub on_conn : {A : Type 0} → (x.Conn → A × x.Conn) → Exec Task A
  on_conn f t = let (a, c) = f t.conn in pure a (with_conn c t)

  abbrev pub on_mqtt : {A : Type 0} → (x.MqttConn → A × x.MqttConn) → Exec Task A
  on_mqtt f t =
      let (a, m) = f t.mqtt_conn in
      pure a (record t { connection = record t.connection { mqtt_conn = m } })

  abbrev pub on_world : {A : Type 0} → (x.World → A × x.World) → Exec Task A
  on_world f t = let (a, w) = f t.world in pure a (record t { world = w })

  -- An acknowledgement for the packet `id` completes the current request, if that awaits it.
  unfoldable pub complete : (Request → Bool) → ℕ → Task → Task
  complete awaits packet_id t = elim t.current_request [
    | none ↦ t
    | some (req, id, notify) ↦
        if awaits req && id == packet_id
        then with_request none (record t { world = x.notify_one notify t.world })
        else t
  ]

  unfoldable pub on_packet : Packet → Task → Task
  on_packet (connack reason_code) t = record t { world = x.notify_one t.connect_notify t.world }
  on_packet (puback packet_id reason_code) t = complete awaits_puback packet_id t
  on_packet (pubrec packet_id reason_code) t = complete awaits_pubrec packet_id t
  on_packet (suback packet_id reason_code) t = complete awaits_suback packet_id t
  on_packet (publish m) t = record t { world = (x.try_send_message t.message_sender m t.world).1 }
  on_packet _ t = t

  unfoldable pub handle_event : MqttEvent → Task → Task
  unfolding on_packet
  handle_event (request_send_packet buffer) t = with_conn (x.stream_send 0 buffer t.conn).1 t
  handle_event (notify_packet_received p) t = on_packet p t
  handle_event _ t = t

  unfoldable pub handle_events : List MqttEvent → Exec Task (Unit {0})
  handle_events [] = pure tt
  handle_events (request_close ∷ events) = pure tt
  handle_events (event ∷ events) = do modify (handle_event event); handle_events events

  unfoldable pub start_subscribe : String → Exec Task ℕ
  start_subscribe topic = do
    sub_entry ← unwrap (x.sub_entry topic at_least_once)
    acquired ← on_mqtt x.acquire_packet_id
    packet_id ← ok_or acquired (message "no packet ID available for SUBSCRIBE packet")
    subscribe_packet ←
        ok_or (x.build_subscribe packet_id sub_entry) (message "failed to build SUBSCRIBE packet")
    events ← on_mqtt (x.checked_send subscribe_packet)
    handle_events events
    pure packet_id

  unfoldable pub start_publish : MqttMessage → Exec Task ℕ
  start_publish m = do
    topic_name ← unwrap (x.topic_name m.topic)
    acquired ← on_mqtt x.acquire_packet_id
    packet_id ← ok_or acquired (message "no packet ID available for PUBLISH packet")
    publish_packet ←
        ok_or (x.build_publish topic_name m.payload m.qos packet_id)
          (message "failed to build PUBLISH packet")
    events ← on_mqtt (x.checked_send publish_packet)
    handle_events events
    pure packet_id

  -- The request is stored to wait for its acknowledgement.
  unfoldable pub start_request : Request → x.Notify → Exec Task (Unit {0})
  start_request (subscribe_to topic) notify = do
    packet_id ← start_subscribe topic
    modify (with_request (some (subscribe_to topic, packet_id, notify)))
  start_request (publish_message m) notify = do
    packet_id ← start_publish m
    modify (with_request (some (publish_message m, packet_id, notify)))

  unfoldable pub send_connect : Exec Task (Unit {0})
  send_connect = do
    self ← gets (λ t. t.connection)
    client_id ← unwrap (x.mqtt_client_id self.client_id)
    connect_packet ← ok_or (x.build_connect client_id) (message "failed to build CONNECT packet")
    events ← on_mqtt (x.checked_send connect_packet)
    handle_events events
    modify (λ t. record t { connection = record t.connection { mqtt_init_sent = true } })

  -- `while let Ok((read, _)) = self.conn.stream_recv(stream_id, &mut buf)` on the MQTT stream. What
  -- `recv` leaves in the cursor is dropped with the cursor.
  unfoldable pub drain_stream : ℕ → Exec Task (Unit {0})
  drain_stream zero = out_of_fuel
  drain_stream (suc fuel) = do
    chunk ← on_conn (x.stream_recv 0 max_datagram_size)
    elim chunk [
      | none ↦ pure tt
      | some bytes ↦ do
        (events, left) ← on_mqtt (x.mqtt_recv bytes)
        handle_events events
        drain_stream fuel
    ]

  -- Other streams are skipped by `continue`.
  unfoldable pub read_stream : ℕ → ℕ → Exec Task (Unit {0})
  read_stream fuel stream_id = if stream_id == 0 then drain_stream fuel else pure tt

  -- `for stream_id in self.conn.readable()`
  unfoldable pub read_streams : ℕ → List ℕ → Exec Task (Unit {0})
  read_streams fuel [] = pure tt
  read_streams fuel (stream_id ∷ rest) = do read_stream fuel stream_id; read_streams fuel rest

  unfoldable pub connect_once : Exec Task (Unit {0})
  connect_once = do
    due ← gets (λ t. x.is_established t.conn && not t.mqtt_init_sent)
    if due then send_connect else pure tt

  unfoldable pub read_established : ℕ → Exec Task (Unit {0})
  read_established fuel = do
    conn ← gets (λ t. t.conn)
    if x.is_established conn then read_streams fuel (x.readable conn) else pure tt

  unfoldable pub process_udp_packet : ℕ → Bytes → x.ScionAddr → x.ScionAddr → Exec Task (Unit {0})
  process_udp_packet fuel bytes src local_addr = do
    from ← ok_or (x.local_address src) (message "invalid src address")
    to ← ok_or (x.local_address local_addr) (message "invalid dst address")
    accepted ← on_conn (x.recv bytes (record { from = from; to = to }))
    check accepted foreign
    connect_once
    read_established fuel

  -- `self.socket.send_to` with the address that QUIC gives, in the ISD-AS of the remote.
  abbrev pub send_packet : Bytes → SocketAddr → String → Exec Task (Unit {0})
  send_packet bytes to failure = do
    self ← gets (λ t. t.connection)
    delivered ← on_world (x.scion_send_to bytes (x.from_std (x.isd_asn self.remote) to))
    check delivered (message failure)

  unfoldable pub send_first : Exec Task (Unit {0})
  send_first = do
    sent ← on_conn (x.send max_datagram_size)
    elim sent [
      | finished ↦ throw foreign
      | failed ↦ throw foreign
      | packet bytes from to ↦ send_packet bytes to "initial send failed"
    ]

  unfoldable pub send_pending : ℕ → Exec Task (Unit {0})
  send_pending zero = out_of_fuel
  send_pending (suc fuel) = do
    sent ← on_conn (x.send max_datagram_size)
    elim sent [
      | finished ↦ pure tt
      | failed ↦ pure tt
      | packet bytes from to ↦ do send_packet bytes to "send failed"; send_pending fuel
    ]

  unfoldable pub select : ℕ → x.ScionAddr → Event x.ScionAddr x.Notify → Exec Task (Unit {0})
  select fuel local_addr timed_out = modify (λ t. with_conn (x.on_timeout t.conn) t)
  select fuel local_addr keepalive_tick = do
    established ← gets (λ t. x.is_established t.conn)
    if established then (do sent ← on_conn x.send_ack_eliciting; check sent foreign) else pure tt
  select fuel local_addr (datagram bytes src) = process_udp_packet fuel bytes src local_addr
  select fuel local_addr (request req notify) = start_request req notify

  -- What follows the `select!`; `true` is another round of the loop.
  unfoldable pub after_select : ℕ → Exec Task Bool
  after_select fuel = do
    closed ← gets (λ t. x.is_closed t.conn)
    if closed then pure false else do send_pending fuel; pure true

  unfoldable pub round : ℕ → x.ScionAddr → Event x.ScionAddr x.Notify → Exec Task Bool
  round fuel local_addr event = do select fuel local_addr event; after_select fuel

  unfoldable pub main_loop : ℕ → x.ScionAddr → List (Event x.ScionAddr x.Notify) → Exec Task Bool
  main_loop fuel local_addr [] = pure true
  main_loop fuel local_addr (event ∷ events) = do
    again ← round fuel local_addr event
    elim again [ true ↦ main_loop fuel local_addr events | false ↦ pure false ]

  -- `false`: the handler has returned; `true`: it waits for the next event.
  unfoldable pub connection_handling :
      ℕ → x.ScionAddr → List (Event x.ScionAddr x.Notify) → Exec Task Bool
  connection_handling fuel local_addr events = do send_first; main_loop fuel local_addr events
