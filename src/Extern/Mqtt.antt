-- ===== src/Extern/Mqtt.antt =====
-- `mqtt_protocol_core`: the MQTT packets and events that the client handles, and the protocol state
-- machine of one connection.
use Prim.Native.String.{String}
use mqtt_rust_scion.Prelude.{ℕ, Bool, Option, List}
use mqtt_rust_scion.Rust.{Bytes}

pub data Qos : Type 0 where
  at_most_once at_least_once exactly_once : Qos

-- `MqttMessage` of client/mod.rs.
pub record MqttMessage : Type 0 where
  pub topic : String
  pub qos : Qos
  pub payload : Bytes

-- A received packet of MQTT 5, with its packet ID and its (first) reason code where it has them.
pub data Packet : Type 0 where
  connack : ℕ → Packet
  puback pubrec pubcomp : ℕ → ℕ → Packet
  suback : ℕ → ℕ → Packet
  subscribe : ℕ → Packet
  publish : MqttMessage → Packet
  other : Packet

-- `mqtt::connection::Event`
pub data MqttEvent : Type 0 where
  request_send_packet : Bytes → MqttEvent
  notify_packet_received : Packet → MqttEvent
  notify_packet_id_released : ℕ → MqttEvent
  notify_error : MqttEvent
  request_close : MqttEvent
  request_timer_reset : MqttEvent
  request_timer_cancel : MqttEvent

pub record Mqtt : Type 1 where
  pub MqttConn : Type 0
  -- a connection for MQTT 5, and whether it answers PUBLISH packets by itself
  pub new_mqtt : MqttConn
  pub set_auto_pub_response : Bool → MqttConn → MqttConn
  pub acquire_packet_id : MqttConn → Option ℕ × MqttConn
  -- `SubEntry::new` and `topic_name`, which refuse some topics, and `client_id`
  pub SubEntry : Type 0
  pub sub_entry : String → Qos → Option SubEntry
  pub TopicName : Type 0
  pub topic_name : String → Option TopicName
  pub ClientId : Type 0
  pub mqtt_client_id : String → Option ClientId
  -- a packet to send, and the builders, which can fail
  pub OutPacket : Type 0
  pub build_connect : ClientId → Option OutPacket
  pub build_subscribe : ℕ → SubEntry → Option OutPacket
  pub build_publish : TopicName → Bytes → Qos → ℕ → Option OutPacket
  pub checked_send : OutPacket → MqttConn → List MqttEvent × MqttConn
  -- `recv(&mut cursor)`: the events, and the bytes that are left in the cursor
  pub mqtt_recv : Bytes → MqttConn → (List MqttEvent × Bytes) × MqttConn
