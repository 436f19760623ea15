-- ===== src/Tests/Client.antt =====
-- Examples of the theorems about the task of a client.
use mqtt_rust_scion.Prelude.{
  ◌-◌, ◌≡◌, refl, ◌⊎◌, true, false, none, some, List, [], ◌∷◌, ◌++◌, length, take,
}
use mqtt_rust_scion.Extern.Mqtt.{
  at_least_once, MqttMessage, puback, pubrec, publish, MqttEvent, notify_packet_received,
  request_close,
}
use mqtt_rust_scion.Client.Connection.{
  publish_message, datagram, request, Task, handle_event, handle_events, main_loop,
}
use mqtt_rust_scion.Client.Connection.Events.{
  Acks, Acked, handle_event-request, handle_events-request,
}
use mqtt_rust_scion.Client.Connection.Messages.{handle_events-queue}
use mqtt_rust_scion.Client.Connection.Requests.{Started, start_request-Started}
use mqtt_rust_scion.Client.Connection.QosOne.{main_loop-pubrec_idle}
use mqtt_rust_scion.Exec.Settles.{Settles}
use mqtt_rust_scion.Client.Connection.{connection_handling}
use mqtt_rust_scion.Client.Connection.Rounds.{connection_handling-Settles}
use mqtt_rust_scion.Tests.Samples.{new_conn, toy_quiche-laws}
use mqtt_rust_scion.Tests.ClientSamples.{toy_client, toy_message-laws}

abbrev task : Task toy_client
task = record {
  connection = record {
    remote = 1;
    conn = new_conn;
    mqtt_conn = 1;
    client_id = "sensor";
    mqtt_init_sent = true;
    connect_notify = 1;
    message_sender = 2;
    current_request = none;
  };
  world = record { queued = []; made = 8; permits = λ n. false };
}

abbrev reading : MqttMessage
reading = record { topic = "temperature"; qos = at_least_once; payload = 2 ∷ 1 ∷ [] }

abbrev pending : Task toy_client
pending = record task {
  connection = record task.connection { current_request = some (publish_message reading, 3, 7) };
}

abbrev batch : List MqttEvent
batch =
    notify_packet_received (puback 4 0)
    ∷ notify_packet_received (publish reading)
    ∷ notify_packet_received (puback 3 0)
    ∷ request_close
    ∷ []

handle_event-request_example :
    let t = handle_event toy_client (notify_packet_received (puback 3 0)) pending in
    (Acks (notify_packet_received (puback 3 0)) (publish_message reading) 3
      × (t.current_request ≡ none)
      × (t.world ≡ toy_client.notify_one 7 pending.world))
    ⊎ ((Acks (notify_packet_received (puback 3 0)) (publish_message reading) 3 → ⊥)
        × (t.current_request ≡ some (publish_message reading, 3, 7)))
handle_event-request_example =
    handle_event-request toy_client (notify_packet_received (puback 3 0)) pending
      (publish_message reading) 3 7 refl

handle_events-request_example :
    let t = (handle_events toy_client batch pending).1 in
    (Acked batch (publish_message reading) 3 × (t.current_request ≡ none))
    ⊎ ((Acked batch (publish_message reading) 3 → ⊥)
        × (t.current_request ≡ some (publish_message reading, 3, 7)))
handle_events-request_example =
    handle_events-request toy_client batch pending (publish_message reading) 3 7 refl

handle_events-queue_example :
    toy_message-laws.queue 2 (handle_events toy_client batch pending).1.world
    ≡ toy_message-laws.queue 2 pending.world
      ++ take
          (toy_message-laws.capacity 2 - length (toy_message-laws.queue 2 pending.world))
          (reading ∷ [])
handle_events-queue_example = handle_events-queue toy_client toy_message-laws batch pending

start_request-Started_example : Started toy_client (publish_message reading) 7 task
start_request-Started_example = start_request-Started toy_client (publish_message reading) 7 task

main_loop-pubrec_idle_example :
    let t =
      (main_loop toy_client 2 5
        (request (publish_message reading) 7 ∷ datagram (64 ∷ 1 ∷ []) 1 ∷ [])
        task).1 in
    handle_event toy_client (notify_packet_received (pubrec 1 0)) t ≡ t
main_loop-pubrec_idle_example =
    main_loop-pubrec_idle toy_client 2 5
      (request (publish_message reading) 7 ∷ datagram (64 ∷ 1 ∷ []) 1 ∷ []) task 1 0 refl (refl, tt)

-- The task before it has sent CONNECT.
abbrev unconnected : Task toy_client
unconnected = record task { connection = record task.connection { mqtt_init_sent = false } }

connection_handling-Settles_example :
    Settles
      (λ n.
        connection_handling toy_client n 5
          (request (publish_message reading) 7 ∷ datagram (64 ∷ 1 ∷ []) 1 ∷ []))
      task
connection_handling-Settles_example =
    connection_handling-Settles toy_client toy_quiche-laws 5
      (request (publish_message reading) 7 ∷ datagram (64 ∷ 1 ∷ []) 1 ∷ []) task
