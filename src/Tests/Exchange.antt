-- ===== src/Tests/Exchange.antt =====
-- Examples of the theorems about a client and its task together: a message is published.
use mqtt_rust_scion.Prelude.{ℕ, ◌≡◌, refl, inl, inr, true, false, none, some, List, [], ◌∷◌, arith}
use mqtt_rust_scion.Extern.Mqtt.{
  at_least_once, MqttMessage, puback, pubrec, MqttEvent, notify_packet_received,
}
use mqtt_rust_scion.Client.Connection.{
  Request, publish_message, keepalive_tick, request, handle_event, handle_events, start_request,
  start_publish, select, after_select, send_pending, round,
}
use mqtt_rust_scion.Client.Exchange.{
  Exchange, submitted, submits, takes, acts, served, Reach, here, then,
}
use mqtt_rust_scion.Client.Exchange.Exclusive.{IsFresh, Reach-queue, Reach-pending, Reach-Acked}
use mqtt_rust_scion.Tests.Samples.{new_conn}
use mqtt_rust_scion.Tests.ClientSamples.{toy_client, toy_notify-laws}

abbrev start : Exchange toy_client toy_notify-laws
start = record {
  awaiting = none;
  queue = [];
  task = record {
    connection = record {
      remote = 1;
      conn = new_conn;
      mqtt_conn = 1;
      client_id = "sensor";
      mqtt_init_sent = true;
      connect_notify = 1;
      message_sender = 2;
      current_request = none;
    };
    world = record { queued = []; made = 8; permits = λ n. false };
  };
  running = true;
}

start-IsFresh : IsFresh toy_client toy_notify-laws start
start-IsFresh = record { awaits = refl; empty = refl; idle = refl; connect_issued = omega arith }

abbrev reading : MqttMessage
reading = record { topic = "temperature"; qos = at_least_once; payload = 2 ∷ 1 ∷ [] }

abbrev sent : Exchange toy_client toy_notify-laws
sent =
    submitted toy_client toy_notify-laws (publish_message reading)
      (served toy_client toy_notify-laws 3 5 keepalive_tick start)

abbrev taken : Exchange toy_client toy_notify-laws
taken = record (served toy_client toy_notify-laws 3 5 (request (publish_message reading) 8) sent) {
  queue = [];
}

sent-Reach : Reach toy_client toy_notify-laws start sent
unfolding round select after_select send_pending
sent-Reach = then (then here (acts start 3 5 keepalive_tick refl (λ r. r))) (
    submits (served toy_client toy_notify-laws 3 5 keepalive_tick start) (publish_message reading)
      refl refl (omega arith))

taken-Reach : Reach toy_client toy_notify-laws start taken
unfolding round select after_select send_pending
taken-Reach = then sent-Reach (takes sent (publish_message reading) 8 [] 3 5 refl refl)

Reach-queue_example :
    (sent.current_request ≡ none) × (◌≡◌ {A = List (Request × ℕ)} [] []) × (sent.awaiting ≡ some 8)
unfolding round select after_select send_pending
Reach-queue_example =
    Reach-queue toy_client toy_notify-laws (publish_message reading) 8 [] sent-Reach start-IsFresh
      refl refl

Reach-pending_example :
    (taken.awaiting ≡ some 8) × (taken.queue ≡ []) × (taken.world.permits 8 ≡ false)
unfolding round select after_select send_pending start_request start_publish handle_events
    handle_event
Reach-pending_example =
    Reach-pending toy_client toy_notify-laws (publish_message reading) 1 8 taken-Reach start-IsFresh
      refl refl

abbrev answers : List MqttEvent
answers = notify_packet_received (pubrec 1 0) ∷ notify_packet_received (puback 1 0) ∷ []

Reach-Acked_example :
    let t = (handle_events toy_client answers taken.task).1 in
    (taken.awaiting ≡ some 8) × (t.current_request ≡ none) × (t.world.permits 8 ≡ true)
unfolding round select after_select send_pending start_request start_publish handle_events
    handle_event
Reach-Acked_example =
    Reach-Acked toy_client toy_notify-laws (publish_message reading) 1 8 answers taken-Reach
      start-IsFresh refl refl (inr (inl (refl, refl)))
