-- ===== src/Client/Api.antt =====
-- client/mod.rs, `Client`: the methods of a client, beside the tasks that it has spawned.
pub mod Sent
pub mod Ready
pub mod Connected
use Prim.Native.String.{String}
use mqtt_rust_scion.Prelude.{ℕ, Bool, true, false, Option, none, some, List, [], ◌∷◌}
use mqtt_rust_scion.Rust.{Bytes, Outcome, ok, err, waiting, message}
use mqtt_rust_scion.Exec.{Exec, ◌>>=◌, ◌>>◌, pure, throw, gets, ok_or, modify, check}
use mqtt_rust_scion.Extern.Mqtt.{Qos, at_least_once, MqttMessage}
use mqtt_rust_scion.Extern.ClientCrates.{ClientCrates}
use mqtt_rust_scion.Client.Connection.{Request, subscribe_to, publish_message, Connection}
use mqtt_rust_scion.Client.Setup.{ClientHost, ClientConfig}
use mqtt_rust_scion.Client.Setup

-- The channel of requests, of the given capacity, between a client and its task. `send` waits for
-- room, `none` if there never is any, and is `false` if the task is gone.
pub record RequestRuntime (x : ClientCrates) : Type 1 where
  pub RequestChannel : Type 0
  pub request_channel : ℕ → x.World → RequestChannel × x.World
  pub send_request : RequestChannel → Request → x.Notify → x.World → Option Bool × x.World

module _ (x : ClientCrates) (h : ClientHost x) (r : RequestRuntime x) where
  pub record Client : Type 0 where
    pub config : ClientConfig x h
    pub connect_notification : x.Notify
    pub connected : Bool
    pub request_stream : Option r.RequestChannel
    pub message_stream : Option x.MessageChannel

  -- A client, the connections whose tasks it has spawned, with the local address of each, and the
  -- world. What the tasks do while a method waits is in the world that the wait returns.
  pub record Session : Type 0 where
    pub client : Client
    pub open client use *
    pub spawned : List (x.ScionAddr × Connection x)
    pub world : x.World

  abbrev pub in_world : {B : Type 0} → Exec x.World B → Exec Session B
  in_world body s = let (outcome, w) = body s.world in (outcome, record s { world = w })

  unfoldable pub new : ClientConfig x h → x.World → Session
  new config w =
      let (notify, w') = x.new_notify w in
      record {
        client = record {
          config = config;
          connect_notification = notify;
          connected = false;
          request_stream = none;
          message_stream = none;
        };
        spawned = [];
        world = w';
      }

  -- An `await` of what may never come.
  abbrev pub waits_for : {B : Type 0} → Option B → Exec Session B
  waits_for none s = (waiting, s)
  waits_for (some b) s = (ok b, s)

  -- `notify.notified().await`
  unfoldable pub await : x.Notify → Exec Session (Unit {0})
  await notify s =
      let (notified, w) = x.notified notify s.world in
      (elim notified [ true ↦ ok tt | false ↦ waiting ], record s { world = w })

  -- `connect`, up to the wait for the notification.
  unfoldable pub open_connection :
      (ℕ → x.World → Option Bytes × x.World) → x.ScionAddr → Exec Session (Unit {0})
  open_connection fill remote = do
    messages ← in_world (λ w. let (channel, w') = x.message_channel 100 w in pure channel w')
    modify (λ s. record s { client = record s.client { message_stream = some messages } })
    requests ← in_world (λ w. let (channel, w') = r.request_channel 1 w in pure channel w')
    modify (λ s. record s { client = record s.client { request_stream = some requests } })
    self ← gets (λ s. s.client)
    connection ← in_world (Setup.new x h fill self.config remote self.connect_notification messages)
    modify (λ s. record s { spawned = connection ∷ s.spawned })

  unfoldable pub connect :
      (ℕ → x.World → Option Bytes × x.World) → x.ScionAddr → Exec Session (Unit {0})
  connect fill remote = do
    open_connection fill remote
    self ← gets (λ s. s.client)
    await self.connect_notification
    modify (λ s. record s { client = record s.client { connected = true } })

  -- The part that `subscribe` and `publish` share, but for the text of the error of the send: the
  -- request is handed to the task, with a notification to wait for.
  unfoldable pub submit : String → Request → Exec Session x.Notify
  submit failure req = do
    self ← gets (λ s. s.client)
    check self.connected (message "client is not connected")
    notify ← in_world (λ w. let (n, w') = x.new_notify w in pure n w')
    sender ← ok_or self.request_stream (message "request stream is not available")
    answer ← in_world (λ w. let (b, w') = r.send_request sender req notify w in pure b w')
    sent ← waits_for answer
    check sent (message failure)
    pure notify

  unfoldable pub subscribe : String → Exec Session (Unit {0})
  subscribe topic = do
    notify ← submit "failed to send subscribe request" (subscribe_to topic)
    await notify

  unfoldable pub publish : String → Bytes → Exec Session (Unit {0})
  publish topic payload = do
    notify ←
        submit "failed to send publish request"
          (publish_message (record { topic = topic; qos = at_least_once; payload = payload }))
    await notify

  unfoldable pub rcv : Exec Session MqttMessage
  rcv = do
    self ← gets (λ s. s.client)
    stream ← ok_or self.message_stream (message "No message stream available")
    answer ← in_world (λ w. let (m, w') = x.recv_message stream w in pure m w')
    packet ← waits_for answer
    ok_or packet (message "No message stream available")
