-- ===== src/Tests/ClientSamples.antt =====
-- Small concrete crates for the client.
use Prim.Native.String.{String}
use mqtt_rust_scion.Prelude.{
  ◌≡◌, ℕ, suc, ◌<◌, refl, Bool, true, false, Option, none, some, List, [], ◌∷◌, ◌++◌, length, ltb,
  if◌then◌else◌, ◌==◌, nat_eq, arith,
}
use mqtt_rust_scion.Rust.{Bytes}
use mqtt_rust_scion.Extern.Mqtt.{
  MqttMessage, puback, MqttEvent, request_send_packet, notify_packet_received, Mqtt,
}
use mqtt_rust_scion.Extern.ClientCrates.{
  ClientRuntime, ClientCrates, MessageLaws, ClosedLaws, NotifyLaws,
}
use mqtt_rust_scion.Tests.Samples.{toy_scion, toy_quiche}

-- A PUBACK packet is 64 and the packet ID.
abbrev toy_packets : Bytes → List MqttEvent
toy_packets (tag ∷ id ∷ []) = if tag == 64 then notify_packet_received (puback id 0) ∷ [] else []
toy_packets _ = []

abbrev pub toy_mqtt : Mqtt
toy_mqtt = record {
  MqttConn = ℕ;
  new_mqtt = 1;
  set_auto_pub_response = λ b n. n;
  acquire_packet_id = λ n. (some n, suc n);
  SubEntry = String;
  sub_entry = λ topic qos. some topic;
  TopicName = String;
  topic_name = some;
  ClientId = String;
  mqtt_client_id = some;
  OutPacket = Bytes;
  build_connect = λ client_id. some (16 ∷ []);
  build_subscribe = λ id topic. some (130 ∷ id ∷ []);
  build_publish = λ topic payload qos id. some (48 ∷ id ∷ payload);
  checked_send = λ p n. (request_send_packet p ∷ [], n);
  mqtt_recv = λ bytes n. ((toy_packets bytes, []), n);
}

-- The messages in the one channel, the number of notifications made, and which of them have a permit.
pub record ClientWorld : Type 0 where
  pub queued : List MqttMessage
  pub made : ℕ
  pub permits : ℕ → Bool

abbrev grant : Bool → ℕ → ClientWorld → ClientWorld
grant b n w = record w { permits = λ k. if k == n then b else w.permits k }

-- A channel is its capacity; 0 is a closed one, and a `recv` on another one that is empty waits.
abbrev pub take_message :
    ℕ → List MqttMessage → ClientWorld → Option (Option MqttMessage) × ClientWorld
take_message c [] w = (if c == 0 then some none else none, w)
take_message c (m ∷ rest) w = (some (some m), record w { queued = rest })

abbrev pub toy_client_runtime : ClientRuntime ℕ
toy_client_runtime = record {
  World = ClientWorld;
  Notify = ℕ;
  new_notify = λ w. (w.made, grant false w.made (record w { made = suc w.made }));
  notify_one = grant true;
  notified = λ n w. (w.permits n, grant false n w);
  MessageChannel = ℕ;
  message_channel = λ n w. (n, w);
  try_send_message = λ c m w.
      if ltb (length w.queued) c
      then (true, record w { queued = w.queued ++ m ∷ [] })
      else (false, w);
  recv_message = λ c w. take_message c w.queued w;
  scion_send_to = λ bytes a w. (true, w);
}

abbrev pub toy_client : ClientCrates
toy_client = record {
  scion = toy_scion;
  quiche = toy_quiche;
  mqtt = toy_mqtt;
  runtime = toy_client_runtime;
}

pub toy_message-laws : MessageLaws ℕ toy_client_runtime
toy_message-laws = record {
  queue = λ c w. w.queued;
  capacity = λ c. c;
  queue-try_send = λ c m w. ground arith;
  queue-notify_one = λ c n w. refl;
}

abbrev pub toy_closed-laws : ClosedLaws ℕ toy_client_runtime
toy_closed-laws = record {
  queue = λ c w. w.queued;
  IsClosed = λ c w. c ≡ 0;
  recv-left = λ c m rest w shut left. rw left (refl, refl, shut);
  recv-empty = λ c w shut left. rw (left, shut) (refl, refl);
}

pub made-take_message :
    (n c : ℕ) (queued : List MqttMessage) (w : ClientWorld)
    → n < w.made
    → n < (take_message c queued w).1.made
made-take_message n c [] w h = h
made-take_message n c (m ∷ rest) w h = h

abbrev pub toy_notify-laws : NotifyLaws ℕ toy_client_runtime
toy_notify-laws = record {
  issued = λ n w. n < w.made;
  permit = λ n w. w.permits n;
  new-permit = λ w. ground arith;
  new-issued = λ w. omega arith;
  new-fresh = λ n w h e. omega arith;
  issued-new_notify = λ n w h. omega arith;
  permit-notify_one_self = λ n w. ground arith;
  permit-notify_one = λ n m w differs. ground (arith, differs);
  issued-notify_one = λ n m w h. h;
  issued-notified = λ n m w h. h;
  permit-try_send = λ n c m w. ground arith;
  issued-try_send = λ n c m w h. ground arith;
  issued-recv_message = λ n c w h. made-take_message n c w.queued w h;
  permit-scion_send_to = λ n bytes a w. refl;
  issued-scion_send_to = λ n bytes a w h. h;
}
