-- ===== src/Client/Connection/QosOne.antt =====
-- client/mod.rs: tasks that serve the methods of `Client`, which publish with QoS 1.
use mqtt_rust_scion.Prelude.{ℕ, ◌≡◌, Option, none, some, List, [], ◌∷◌, arith}
use mqtt_rust_scion.Extern.Mqtt.{
  at_least_once, puback, pubrec, suback, MqttEvent, notify_packet_received,
}
use mqtt_rust_scion.Extern.ClientCrates.{ClientCrates}
use mqtt_rust_scion.Exec.Keeps.{Keeps, Keeps-bind, Keeps-modify}
use mqtt_rust_scion.Client.Connection.Preserve.{
  IsStable, AllStart, start_subscribe-Keeps, start_publish-Keeps, main_loop-Keeps,
}
use mqtt_rust_scion.Client.Connection.{
  Request, subscribe_to, publish_message, Event, timed_out, keepalive_tick, datagram, request, Task,
  complete, handle_event, start_subscribe, start_publish, start_request, main_loop,
}

-- A request as `Client::subscribe` and `Client::publish` make them.
abbrev pub IsOfClient : Request → Type 0
IsOfClient (subscribe_to topic) = Unit
IsOfClient (publish_message m) = m.qos ≡ at_least_once

module _ (x : ClientCrates) where
  abbrev HoldsOfClient : Option (Request × ℕ × x.Notify) → Type 0
  HoldsOfClient none = Unit
  HoldsOfClient (some (req, id, n)) = IsOfClient req

  -- The pending request of the task is one of the client.
  pub record Serves (t : Task x) : Type 0 where
    pub holds : HoldsOfClient t.current_request

  -- All requests among the events are of the client.
  abbrev pub AllOfClient : List (Event x.ScionAddr x.Notify) → Type 0
  AllOfClient [] = Unit
  AllOfClient (request req n ∷ events) = IsOfClient req × AllOfClient events
  AllOfClient (e ∷ events) = AllOfClient events

  handle_event-Serves : (e : MqttEvent) (t : Task x) → Serves t → Serves (handle_event x e t)
  unfolding handle_event complete
  handle_event-Serves (notify_packet_received (puback i r)) t h = ground arith
  handle_event-Serves (notify_packet_received (pubrec i r)) t h = ground arith
  handle_event-Serves (notify_packet_received (suback i r)) t h = ground arith
  handle_event-Serves _ t h = record { holds = h.holds }

  Serves-IsStable : IsStable x Serves
  Serves-IsStable = record {
    on_event = handle_event-Serves;
    on_quic = λ c t h. record { holds = h.holds };
    on_protocol = λ m t h. record { holds = h.holds };
    on_connect = λ t h. record { holds = h.holds };
    on_send = λ bytes a t h. record { holds = h.holds };
  }

  start_request-Serves :
      (req : Request) (n : x.Notify) → IsOfClient req → Keeps Serves (start_request x req n)
  unfolding start_request
  start_request-Serves (subscribe_to topic) n ours =
      Keeps-bind (start_subscribe x topic) _ (start_subscribe-Keeps x Serves Serves-IsStable topic)
        λ id. Keeps-modify _ (λ t h. record { holds = tt })
  start_request-Serves (publish_message m) n ours =
      Keeps-bind (start_publish x m) _ (start_publish-Keeps x Serves Serves-IsStable m)
        λ id. Keeps-modify _ (λ t h. record { holds = ours })

  all_start :
      (events : List (Event x.ScionAddr x.Notify))
      → AllOfClient events
      → AllStart x Serves Serves-IsStable events
  all_start [] ours = tt
  all_start (timed_out ∷ events) ours = (tt, all_start events ours)
  all_start (keepalive_tick ∷ events) ours = (tt, all_start events ours)
  all_start (datagram bytes src ∷ events) ours = (tt, all_start events ours)
  all_start (request req n ∷ events) (first, rest) =
      (start_request-Serves req n first, all_start events rest)

  pubrec_idle :
      (i r : ℕ) (t : Task x) → Serves t → handle_event x (notify_packet_received (pubrec i r)) t ≡ t
  unfolding handle_event complete
  pubrec_idle i r t h = ground arith

  -- A task that serves the methods of `Client` never acts on a PUBREC packet, whatever its ID: after
  -- any events of the loop its pending request, if there is one, does not await it.
  pub main_loop-pubrec_idle :
      (fuel : ℕ) (local_addr : x.ScionAddr) (events : List (Event x.ScionAddr x.Notify))
      (t : Task x) (packet_id reason_code : ℕ)
      → t.current_request ≡ none
      → AllOfClient events
      → let t' = (main_loop x fuel local_addr events t).1 in
        handle_event x (notify_packet_received (pubrec packet_id reason_code)) t' ≡ t'
  main_loop-pubrec_idle fuel local_addr events t packet_id reason_code idle ours =
      pubrec_idle packet_id reason_code _ (
        (main_loop-Keeps x Serves Serves-IsStable fuel local_addr events (all_start events ours)).at
          t (record { holds = rw idle tt }))
