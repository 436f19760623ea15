-- ===== src/Client/Connection/Events.antt =====
-- What MQTT events do to the task of a client: which of them complete its request, and which
-- messages reach its channel.
use mqtt_rust_scion.Prelude.{
  ℕ, ◌≡◌, refl, sym, ◌⊎◌, inl, inr, Bool, true, none, some, List, [], ◌∷◌, ◌==◌, nat_eq,
  nat_beq_iff, Bool-cases, arith,
}
use mqtt_rust_scion.Rust.{ok}
use mqtt_rust_scion.Extern.Mqtt.{
  at_least_once, exactly_once, Packet, puback, pubrec, suback, MqttEvent, notify_packet_received,
  request_close,
}
use mqtt_rust_scion.Extern.ClientCrates.{ClientCrates}
use mqtt_rust_scion.Client.Connection.{
  Request, subscribe_to, publish_message, Task, awaits_puback, awaits_pubrec, awaits_suback,
  complete, on_packet, handle_event, handle_events,
}

-- The event is an acknowledgement of the request that was sent with packet ID `id`: PUBACK for a
-- message with QoS 1, PUBREC for one with QoS 2, SUBACK for a subscription.
abbrev pub Acks : MqttEvent → Request → ℕ → Type 0
Acks (notify_packet_received (puback i r)) (publish_message m) id =
    (m.qos ≡ at_least_once) × (i ≡ id)
Acks (notify_packet_received (pubrec i r)) (publish_message m) id =
    (m.qos ≡ exactly_once) × (i ≡ id)
Acks (notify_packet_received (suback i r)) (subscribe_to topic) id = i ≡ id
Acks _ _ _ = ⊥

-- One of the events acknowledges the request, and no close request stands before it.
abbrev pub Acked : List MqttEvent → Request → ℕ → Type 0
Acked [] req id = ⊥
Acked (request_close ∷ events) req id = ⊥
Acked (e ∷ events) req id = Acks e req id ⊎ Acked events req id

module _ (x : ClientCrates) where
  abbrev pub Pending : Type 0
  Pending = Request × ℕ × x.Notify

  complete_lem :
      (awaits : Request → Bool) (i : ℕ) (t : Task x) (req : Request) (id : ℕ) (n : x.Notify)
      → t.current_request ≡ some (req, id, n)
      → let t' = complete x awaits i t in
        ((awaits req ≡ true)
          × (i ≡ id)
          × (t'.current_request ≡ none)
          × (t'.world ≡ x.notify_one n t.world))
        ⊎ ((awaits req ≡ true → i ≡ id → ⊥) × (t'.current_request ≡ some (req, id, n)))
  unfolding complete
  complete_lem awaits i t req id n h = elim (Bool-cases (awaits req)) [
    | inr idle ↦ inr (λ a e. cc, ground arith)
    | inl awaited ↦ elim (Bool-cases (id == i)) [
      | inl same ↦ inl (awaited, sym ((nat_beq_iff id i).0 same), ground arith, ground arith)
      | inr differs ↦ inr (λ a e. ground arith, ground arith)
    ]
  ]

  -- An event either acknowledges the request, and then clears it and notifies its caller once, or
  -- leaves it pending.
  pub handle_event-request :
      (e : MqttEvent) (t : Task x) (req : Request) (id : ℕ) (n : x.Notify)
      → t.current_request ≡ some (req, id, n)
      → let t' = handle_event x e t in
        (Acks e req id × (t'.current_request ≡ none) × (t'.world ≡ x.notify_one n t.world))
        ⊎ ((Acks e req id → ⊥) × (t'.current_request ≡ some (req, id, n)))
  unfolding handle_event
  handle_event-request (notify_packet_received (puback i r)) t (publish_message m) id n h =
      ground (arith, complete_lem awaits_puback i t (publish_message m) id n h)
  handle_event-request (notify_packet_received (puback i r)) t (subscribe_to s) id n h =
      ground (arith, complete_lem awaits_puback i t (subscribe_to s) id n h)
  handle_event-request (notify_packet_received (pubrec i r)) t (publish_message m) id n h =
      ground (arith, complete_lem awaits_pubrec i t (publish_message m) id n h)
  handle_event-request (notify_packet_received (pubrec i r)) t (subscribe_to s) id n h =
      ground (arith, complete_lem awaits_pubrec i t (subscribe_to s) id n h)
  handle_event-request (notify_packet_received (suback i r)) t (publish_message m) id n h =
      ground (arith, complete_lem awaits_suback i t (publish_message m) id n h)
  handle_event-request (notify_packet_received (suback i r)) t (subscribe_to s) id n h =
      ground (arith, complete_lem awaits_suback i t (subscribe_to s) id n h)
  handle_event-request _ t req id n h = inr (λ a. a, h)

  -- Events never make the handler fail: what goes wrong inside it is logged and dropped.
  pub handle_events_ok :
      (events : List MqttEvent) (t : Task x) → (handle_events x events t).0 ≡ ok tt
  unfolding handle_events
  handle_events_ok [] t = refl
  handle_events_ok (request_close ∷ events) t = refl
  handle_events_ok (e ∷ events) t = handle_events_ok events (handle_event x e t)

  -- No event makes a request.
  pub handle_event-none :
      (e : MqttEvent) (t : Task x)
      → t.current_request ≡ none
      → (handle_event x e t).current_request ≡ none
  unfolding handle_event complete
  handle_event-none (notify_packet_received p) t h = on_packet-none p
    where
      on_packet-none : (p : Packet) → (on_packet x p t).current_request ≡ none
      on_packet-none (puback i r) = ground arith
      on_packet-none (pubrec i r) = ground arith
      on_packet-none (suback i r) = ground arith
      on_packet-none _ = h
  handle_event-none _ t h = h

  handle_events-none :
      (events : List MqttEvent) (t : Task x)
      → t.current_request ≡ none
      → (handle_events x events t).1.current_request ≡ none
  unfolding handle_events
  handle_events-none [] t h = h
  handle_events-none (request_close ∷ events) t h = h
  handle_events-none (e ∷ events) t h =
      handle_events-none events (handle_event x e t) (handle_event-none e t h)

  -- A batch of events completes the pending request exactly when it holds an acknowledgement of it,
  -- of the right kind and with its packet ID, before any close request; otherwise the request
  -- stays pending.
  pub handle_events-request :
      (events : List MqttEvent) (t : Task x) (req : Request) (id : ℕ) (n : x.Notify)
      → t.current_request ≡ some (req, id, n)
      → let t' = (handle_events x events t).1 in
        (Acked events req id × (t'.current_request ≡ none))
        ⊎ ((Acked events req id → ⊥) × (t'.current_request ≡ some (req, id, n)))
  unfolding handle_events
  handle_events-request [] t req id n h = inr (λ a. a, h)
  handle_events-request (request_close ∷ events) t req id n h = inr (λ a. a, h)
  handle_events-request (e ∷ events) t req id n h = elim (handle_event-request e t req id n h) [
    | inl (acks, cleared, world) ↦
        inl (inl acks, handle_events-none events (handle_event x e t) cleared)
    | inr (unrelated, kept) ↦
        elim (handle_events-request events (handle_event x e t) req id n kept) [
          | inl (acked, cleared) ↦ inl (inr acked, cleared)
          | inr (unacked, kept') ↦ inr (elim [ inl a ↦ unrelated a | inr a ↦ unacked a ], kept')
        ]
  ]
