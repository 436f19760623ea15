-- ===== src/Client/Connection/Messages.antt =====
-- Which of the messages that a broker publishes reach the client, and in which order.
use mqtt_rust_scion.Prelude.{
  ℕ, zero, suc, ◌-◌, ◌≡◌, ◌≢◌, refl, sym, ap, ◌∙◌, inl, inr, Bool, List, [], ◌∷◌, ◌++◌, length,
  take, ltb, if◌then◌else◌, Bool-cases, append-nil, append_assoc, length-append, arith,
}
use mqtt_rust_scion.Extern.Mqtt.{
  MqttMessage, connack, puback, pubrec, suback, publish, MqttEvent, notify_packet_received,
  request_close,
}
use mqtt_rust_scion.Extern.ClientCrates.{ClientCrates, MessageLaws}
use mqtt_rust_scion.Client.Connection.{
  Request, Task, awaits_puback, awaits_pubrec, awaits_suback, complete, handle_event, handle_events,
}

-- The messages of the PUBLISH packets before the first close request.
abbrev pub published : List MqttEvent → List MqttMessage
published [] = []
published (request_close ∷ events) = []
published (notify_packet_received (publish m) ∷ events) = m ∷ published events
published (e ∷ events) = published events

module _ (x : ClientCrates) (laws : MessageLaws x.scion.ScionAddr x.runtime) where
  open laws use {queue, capacity}

  complete-queue :
      (awaits : Request → Bool) (i : ℕ) (t : Task x) (c : x.MessageChannel)
      → queue c (complete x awaits i t).world ≡ queue c t.world
  unfolding complete
  complete-queue awaits i t c = grind (arith, laws.queue-notify_one)

  -- An event that is neither a PUBLISH nor a close request leaves the queue alone.
  handle_event-queue :
      (e : MqttEvent) (t : Task x) (c : x.MessageChannel)
      → ((m : MqttMessage) → e ≢ notify_packet_received (publish m))
      → queue c (handle_event x e t).world ≡ queue c t.world
  unfolding handle_event
  handle_event-queue (notify_packet_received (connack r)) t c unlike = laws.queue-notify_one c _ _
  handle_event-queue (notify_packet_received (puback i r)) t c unlike =
      complete-queue awaits_puback i t c
  handle_event-queue (notify_packet_received (pubrec i r)) t c unlike =
      complete-queue awaits_pubrec i t c
  handle_event-queue (notify_packet_received (suback i r)) t c unlike =
      complete-queue awaits_suback i t c
  handle_event-queue (notify_packet_received (publish m)) t c unlike = absurd (unlike m refl)
  handle_event-queue _ t c unlike = refl

  same_sender :
      (e : MqttEvent) (t : Task x) → (handle_event x e t).message_sender ≡ t.message_sender
  unfolding handle_event complete
  same_sender (notify_packet_received (puback i r)) t = ground arith
  same_sender (notify_packet_received (pubrec i r)) t = ground arith
  same_sender (notify_packet_received (suback i r)) t = ground arith
  same_sender _ t = refl

  offer : ℕ → List MqttMessage → MqttMessage → List MqttMessage
  offer cap q m = if ltb (length q) cap then q ++ m ∷ [] else q

  take_none : (n : ℕ) → take {A = MqttMessage} n [] ≡ []
  take_none zero = refl
  take_none (suc n) = refl

  -- One more message, and then the rest.
  offer-take :
      (cap : ℕ) (q : List MqttMessage) (m : MqttMessage) (rest : List MqttMessage)
      → offer cap q m ++ take (cap - length (offer cap q m)) rest
        ≡ q ++ take (cap - length q) (m ∷ rest)
  unfolding offer
  offer-take cap q m rest = elim (Bool-cases (ltb (length q) cap)) [
    | inl room ↦
        let more : cap - length q ≡ suc (cap - length (q ++ m ∷ [])) =
          ground (arith, length-append q (m ∷ [])) in
        rw (room, more, append_assoc q (m ∷ []) (take (cap - length (q ++ m ∷ [])) rest)) refl
    | inr full ↦ let none_left : cap - length q ≡ 0 = ground arith in rw (full, none_left) refl
  ]

  -- The queue after the events, from the queue `q` before them.
  abbrev filled : x.MessageChannel → List MqttEvent → List MqttMessage → List MqttMessage
  filled c events q = q ++ take (capacity c - length q) (published events)

  filled_none :
      (c : x.MessageChannel) (q : List MqttMessage) → q ≡ q ++ take (capacity c - length q) []
  filled_none c q = sym (ap (◌++◌ q) (take_none (capacity c - length q)) ∙ append-nil q)

  handle_publish-queue :
      (m : MqttMessage) (t : Task x) (c : x.MessageChannel)
      → t.message_sender ≡ c
      → queue c (handle_event x (notify_packet_received (publish m)) t).world
        ≡ offer (capacity c) (queue c t.world) m
  unfolding handle_event offer
  handle_publish-queue m t c e =
      ap (λ d. queue c (x.try_send_message d m t.world).1) e ∙ laws.queue-try_send c m t.world

  queue_from :
      (events : List MqttEvent) (t : Task x) (c : x.MessageChannel)
      → t.message_sender ≡ c
      → queue c (handle_events x events t).1.world ≡ filled c events (queue c t.world)
  unfolding handle_events
  queue_from [] t c e = filled_none c (queue c t.world)
  queue_from (request_close ∷ events) t c e = filled_none c (queue c t.world)
  queue_from (notify_packet_received (publish m) ∷ events) t c e =
      queue_from events (handle_event x (notify_packet_received (publish m)) t) c
        (same_sender (notify_packet_received (publish m)) t ∙ e)
      ∙ ap (filled c events) (handle_publish-queue m t c e)
      ∙ offer-take (capacity c) (queue c t.world) m (published events)
  queue_from (event ∷ events) t c e =
      queue_from events (handle_event x event t) c (same_sender event t ∙ e)
      ∙ ap (filled c events) (handle_event-queue event t c (λ m p. cc))

  -- The channel receives the published messages in their order, as far as it has room; those that
  -- find it full are dropped.
  pub handle_events-queue :
      (events : List MqttEvent) (t : Task x)
      → let q = queue t.message_sender t.world in
        queue t.message_sender (handle_events x events t).1.world
        ≡ q ++ take (capacity t.message_sender - length q) (published events)
  handle_events-queue events t = queue_from events t t.message_sender refl
