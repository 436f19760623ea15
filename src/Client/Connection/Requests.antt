-- ===== src/Client/Connection/Requests.antt =====
-- The life of a request: how it is started, and which requests a task can hold.
use Prim.Native.String.{String}
use mqtt_rust_scion.Prelude.{ℕ, ◌≡◌, ◌⊎◌, inl, inr, none, some, Option-cases, arith}
use mqtt_rust_scion.Rust.{ok, err, panicked, message}
use mqtt_rust_scion.Extern.Mqtt.{at_least_once}
use mqtt_rust_scion.Extern.ClientCrates.{ClientCrates}
use mqtt_rust_scion.Client.Connection.{
  Request, subscribe_to, publish_message, Task, start_subscribe, start_publish, start_request,
}
use mqtt_rust_scion.Client.Connection.Events.{handle_events_ok}

module _ (x : ClientCrates) where
  -- `SubEntry::new` or `topic_name` refuses the topic of the request.
  abbrev pub IsRefused : Request → Type 0
  IsRefused (subscribe_to topic) = x.sub_entry topic at_least_once ≡ none
  IsRefused (publish_message m) = x.topic_name m.topic ≡ none

  -- There is no free packet ID, or no packet can be built with the one that there is.
  abbrev pub IsUnsent : Request → Task x → Type 0
  IsUnsent (subscribe_to topic) t =
      ((x.acquire_packet_id t.mqtt_conn).0 ≡ none)
      ⊎ ((id : ℕ) × (entry : x.SubEntry) × ((x.acquire_packet_id t.mqtt_conn).0 ≡ some id)
          × (x.sub_entry topic at_least_once ≡ some entry)
          × (x.build_subscribe id entry ≡ none))
  IsUnsent (publish_message m) t =
      ((x.acquire_packet_id t.mqtt_conn).0 ≡ none)
      ⊎ ((id : ℕ) × (name : x.TopicName) × ((x.acquire_packet_id t.mqtt_conn).0 ≡ some id)
          × (x.topic_name m.topic ≡ some name)
          × (x.build_publish name m.payload m.qos id ≡ none))

  -- The three ways in which the start of a request ends.
  pub data Started (req : Request) (n : x.Notify) (t : Task x) : Type 0 where
    waits :
        (id : ℕ)
        → (IsRefused req → ⊥)
        → (x.acquire_packet_id t.mqtt_conn).0 ≡ some id
        → (start_request x req n t).0 ≡ ok tt
        → (start_request x req n t).1.current_request ≡ some (req, id, n)
        → Started req n t
    panics : IsRefused req → start_request x req n t ≡ (panicked, t) → Started req n t
    fails :
        (text : String)
        → (IsRefused req → ⊥)
        → IsUnsent req t
        → (start_request x req n t).0 ≡ err (message text)
        → (start_request x req n t).1.current_request ≡ t.current_request
        → Started req n t

  -- A request whose topic the MQTT crate refuses, and no other, makes the task panic. Any other either
  -- returns an error and leaves the pending request, because there is no packet ID or no packet can be
  -- built, or becomes the pending request, with the packet ID that it was sent with, whatever the events
  -- of the send were.
  pub start_request-Started : (req : Request) (n : x.Notify) (t : Task x) → Started req n t
  unfolding start_request start_subscribe start_publish
  start_request-Started (subscribe_to topic) n t =
      elim (Option-cases (x.sub_entry topic at_least_once)) [
        | inl e ↦ panics e (ground arith)
        | inr (entry, e) ↦ elim (Option-cases (x.acquire_packet_id t.mqtt_conn).0) [
          | inl a ↦
              fails "no packet ID available for SUBSCRIBE packet" (λ r. cc) (inl a) (ground arith)
                (ground arith)
          | inr (id, a) ↦ elim (Option-cases (x.build_subscribe id entry)) [
            | inl b ↦
                fails "failed to build SUBSCRIBE packet" (λ r. cc) (inr (id, entry, a, e, b))
                  (ground arith) (ground arith)
            | inr (p, b) ↦
                waits id (λ r. cc) a (grind (arith, handle_events_ok x))
                  (grind (arith, handle_events_ok x))
          ]
        ]
      ]
  start_request-Started (publish_message m) n t = elim (Option-cases (x.topic_name m.topic)) [
    | inl e ↦ panics e (ground arith)
    | inr (entry, e) ↦ elim (Option-cases (x.acquire_packet_id t.mqtt_conn).0) [
      | inl a ↦
          fails "no packet ID available for PUBLISH packet" (λ r. cc) (inl a) (ground arith)
            (ground arith)
      | inr (id, a) ↦ elim (Option-cases (x.build_publish entry m.payload m.qos id)) [
        | inl b ↦
            fails "failed to build PUBLISH packet" (λ r. cc) (inr (id, entry, a, e, b))
              (ground arith) (ground arith)
        | inr (p, b) ↦
            waits id (λ r. cc) a (grind (arith, handle_events_ok x))
              (grind (arith, handle_events_ok x))
      ]
    ]
  ]
