-- ===== src/Client/Connection/Parts.antt =====
-- client/mod.rs: the parts of the task without loops.
use Prim.Native.String.{String}
use mqtt_rust_scion.Prelude.{sym, subst, List, nat_eq}
use mqtt_rust_scion.Rust.{Bytes, SocketAddr, foreign}
use mqtt_rust_scion.Exec.{throw}
use mqtt_rust_scion.Exec.Settles.{Ends, Quick, quick_rules, Quick-throw, Quick-bind}
use mqtt_rust_scion.Net.{max_datagram_size}
use mqtt_rust_scion.Extern.Mqtt.{MqttMessage, MqttEvent}
use mqtt_rust_scion.Extern.Quiche.{Sent, packet, finished, failed}
use mqtt_rust_scion.Extern.ClientCrates.{ClientCrates}
use mqtt_rust_scion.Client.Connection.{
  Request, subscribe_to, publish_message, Task, on_conn, on_mqtt, on_world, handle_events,
  start_subscribe, start_publish, start_request, send_connect, connect_once, send_packet,
  send_first,
}
use mqtt_rust_scion.Client.Connection.Events.{handle_events_ok}

module _ (x : ClientCrates) where
  pub quic_call : {A : Type 0} (f : x.Conn → A × x.Conn) → Quick (on_conn x f)
  quic_call f = record { at = λ t. tt }

  pub protocol_call : {A : Type 0} (f : x.MqttConn → A × x.MqttConn) → Quick (on_mqtt x f)
  protocol_call f = record { at = λ t. tt }

  world_call : {A : Type 0} (f : x.World → A × x.World) → Quick (on_world x f)
  world_call f = record { at = λ t. tt }

  pub handle_events-Quick : (events : List MqttEvent) → Quick (handle_events x events)
  handle_events-Quick events = record {
    at = λ t. subst Ends (sym (handle_events_ok x events t)) tt;
  }

  send_connect-Quick : Quick (send_connect x)
  unfolding send_connect
  send_connect-Quick = search (quick_rules, protocol_call, handle_events-Quick) depth 24

  pub connect_once-Quick : Quick (connect_once x)
  unfolding connect_once
  connect_once-Quick = search (quick_rules, send_connect-Quick) depth 24

  start_subscribe-Quick : (topic : String) → Quick (start_subscribe x topic)
  unfolding start_subscribe
  start_subscribe-Quick topic = search (quick_rules, protocol_call, handle_events-Quick) depth 24

  start_publish-Quick : (m : MqttMessage) → Quick (start_publish x m)
  unfolding start_publish
  start_publish-Quick m = search (quick_rules, protocol_call, handle_events-Quick) depth 24

  pub start_request-Quick : (req : Request) (n : x.Notify) → Quick (start_request x req n)
  unfolding start_request
  start_request-Quick (subscribe_to topic) n = search (quick_rules, start_subscribe-Quick) depth 24
  start_request-Quick (publish_message m) n = search (quick_rules, start_publish-Quick) depth 24

  pub send_packet-Quick :
      (bytes : Bytes) (to : SocketAddr) (text : String) → Quick (send_packet x bytes to text)
  send_packet-Quick bytes to text = search (quick_rules, world_call) depth 24

  after_first-Quick :
      (sent : Sent)
      → Quick (elim sent [
        | finished ↦ throw {S = Task x} foreign
        | failed ↦ throw foreign
        | packet bytes from to ↦ send_packet x bytes to "initial send failed"
      ])
  after_first-Quick finished = Quick-throw foreign
  after_first-Quick failed = Quick-throw foreign
  after_first-Quick (packet bytes from to) = send_packet-Quick bytes to "initial send failed"

  pub send_first-Quick : Quick (send_first x)
  unfolding send_first
  send_first-Quick =
      Quick-bind (on_conn x (x.send max_datagram_size)) _ (quic_call (x.send max_datagram_size))
        after_first-Quick
