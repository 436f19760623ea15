-- ===== src/Client/Exchange/Between.antt =====
-- client/mod.rs: the task between two requests of its client.
use mqtt_rust_scion.Prelude.{ℕ, ◌≡◌, Bool, none, arith}
use mqtt_rust_scion.Extern.Mqtt.{
  connack, puback, pubrec, suback, publish, MqttEvent, notify_packet_received,
}
use mqtt_rust_scion.Extern.ClientCrates.{ClientCrates, NotifyLaws}
use mqtt_rust_scion.Client.Connection.{
  Request, Task, awaits_puback, awaits_pubrec, awaits_suback, complete, handle_event,
}
use mqtt_rust_scion.Client.Connection.Preserve.{IsStable}
use mqtt_rust_scion.Client.Connection.Events.{handle_event-none}

module _ (x : ClientCrates) (laws : NotifyLaws x.scion.ScionAddr x.runtime) where
  -- With no call of the client.
  pub record Idle (t : Task x) : Type 0 where
    pub connect_issued : laws.issued t.connect_notify t.world
    pub idle : t.current_request ≡ none

  connect_issued-complete :
      (awaits : Request → Bool) (i : ℕ) (t : Task x)
      → laws.issued t.connect_notify t.world
      → let t' = complete x awaits i t in laws.issued t'.connect_notify t'.world
  unfolding complete
  connect_issued-complete awaits i t h = grind (arith, laws.issued-notify_one)

  connect_issued-handle_event :
      (e : MqttEvent) (t : Task x)
      → laws.issued t.connect_notify t.world
      → let t' = handle_event x e t in laws.issued t'.connect_notify t'.world
  unfolding handle_event
  connect_issued-handle_event (notify_packet_received (connack r)) t h =
      laws.issued-notify_one t.connect_notify t.connect_notify t.world h
  connect_issued-handle_event (notify_packet_received (puback i r)) t h =
      connect_issued-complete awaits_puback i t h
  connect_issued-handle_event (notify_packet_received (pubrec i r)) t h =
      connect_issued-complete awaits_pubrec i t h
  connect_issued-handle_event (notify_packet_received (suback i r)) t h =
      connect_issued-complete awaits_suback i t h
  connect_issued-handle_event (notify_packet_received (publish m)) t h =
      laws.issued-try_send t.connect_notify t.message_sender m t.world h
  connect_issued-handle_event _ t h = h

  pub Idle-IsStable : IsStable x Idle
  Idle-IsStable = record {
    on_event = λ e t h. record {
      connect_issued = connect_issued-handle_event e t h.connect_issued;
      idle = handle_event-none x e t h.idle;
    };
    on_quic = λ c t h. ground arith;
    on_protocol = λ m t h. ground arith;
    on_connect = λ t h. ground arith;
    on_send = λ bytes a t h. record {
      connect_issued = laws.issued-scion_send_to t.connect_notify bytes a t.world h.connect_issued;
      idle = h.idle;
    };
  }
