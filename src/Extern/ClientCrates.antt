-- ===== src/Extern/ClientCrates.antt =====
-- The crates that the client is built on. The notifications, the channels and the SCION socket of a
-- client are in one world, as the ones of the proxy are.
use mqtt_rust_scion.Prelude.{
  some, none, ℕ, ◌≡◌, ◌≢◌, Bool, true, false, Option, List, [], ◌∷◌, ◌++◌, length, ltb,
  if◌then◌else◌,
}
use mqtt_rust_scion.Rust.{Bytes}
use mqtt_rust_scion.Extern.Scion.{ScionProto}
use mqtt_rust_scion.Extern.Quiche.{Quiche}
use mqtt_rust_scion.Extern.Mqtt.{Mqtt, MqttMessage}

-- `A` is the type of SCION addresses.
pub record ClientRuntime (A : Type 0) : Type 1 where
  pub World : Type 0
  -- `tokio::sync::Notify`
  pub Notify : Type 0
  pub new_notify : World → Notify × World
  pub notify_one : Notify → World → World
  -- `notified().await`: `false` if the notification never comes
  pub notified : Notify → World → Bool × World
  -- the channel of received messages, of the given capacity; `try_send` returns whether there was room
  pub MessageChannel : Type 0
  pub message_channel : ℕ → World → MessageChannel × World
  pub try_send_message : MessageChannel → MqttMessage → World → Bool × World
  -- `recv().await`: the message, or `none` if the channel is closed and empty; `none` for all if nothing
  -- ever comes
  pub recv_message : MessageChannel → World → Option (Option MqttMessage) × World
  pub scion_send_to : Bytes → A → World → Bool × World

pub record ClientCrates : Type 1 where
  pub scion : ScionProto
  pub open scion use *
  pub quiche : Quiche
  pub open quiche use *
  pub mqtt : Mqtt
  pub open mqtt use *
  pub runtime : ClientRuntime scion.ScionAddr
  pub open runtime use *

-- Documented, for a bounded channel whose receiver is open: `try_send` appends the message if the
-- channel has room and is refused otherwise; a notification touches no channel.
pub record MessageLaws (A : Type 0) (r : ClientRuntime A) : Type 0 where
  pub queue : r.MessageChannel → r.World → List MqttMessage
  pub capacity : r.MessageChannel → ℕ
  pub queue-try_send :
      (c : r.MessageChannel) (m : MqttMessage) (w : r.World)
      → queue c (r.try_send_message c m w).1
        ≡ (if ltb (length (queue c w)) (capacity c) then queue c w ++ m ∷ [] else queue c w)
  pub queue-notify_one :
      (c : r.MessageChannel) (n : r.Notify) (w : r.World) → queue c (r.notify_one n w) ≡ queue c w

-- Documented: when all senders of a channel are dropped, `recv` gives the messages that are left in it,
-- in order, and then `None`.
pub record ClosedLaws (A : Type 0) (r : ClientRuntime A) : Type 1 where
  pub queue : r.MessageChannel → r.World → List MqttMessage
  pub IsClosed : r.MessageChannel → r.World → Type 0
  pub recv-left :
      (c : r.MessageChannel) (m : MqttMessage) (rest : List MqttMessage) (w : r.World)
      → IsClosed c w
      → queue c w ≡ m ∷ rest
      → ((r.recv_message c w).0 ≡ some (some m))
        × (queue c (r.recv_message c w).1 ≡ rest)
        × IsClosed c (r.recv_message c w).1
  pub recv-empty :
      (c : r.MessageChannel) (w : r.World)
      → IsClosed c w
      → queue c w ≡ []
      → ((r.recv_message c w).0 ≡ some none) × (queue c (r.recv_message c w).1 ≡ [])

-- Documented: `notify_one` stores a permit for the notification that `notified` waits for, and takes no
-- permit of another; a new notification has none. `issued` are the notifications made so far.
pub record NotifyLaws (A : Type 0) (r : ClientRuntime A) : Type 1 where
  pub issued : r.Notify → r.World → Type 0
  pub permit : r.Notify → r.World → Bool
  pub new-permit : (w : r.World) → permit (r.new_notify w).0 (r.new_notify w).1 ≡ false
  pub new-issued : (w : r.World) → issued (r.new_notify w).0 (r.new_notify w).1
  pub new-fresh : (n : r.Notify) (w : r.World) → issued n w → (r.new_notify w).0 ≢ n
  pub issued-new_notify : (n : r.Notify) (w : r.World) → issued n w → issued n (r.new_notify w).1
  pub permit-notify_one_self : (n : r.Notify) (w : r.World) → permit n (r.notify_one n w) ≡ true
  pub permit-notify_one :
      (n m : r.Notify) (w : r.World) → n ≢ m → permit n (r.notify_one m w) ≡ permit n w
  pub issued-notify_one : (n m : r.Notify) (w : r.World) → issued n w → issued n (r.notify_one m w)
  pub issued-notified : (n m : r.Notify) (w : r.World) → issued n w → issued n (r.notified m w).1
  pub permit-try_send :
      (n : r.Notify) (c : r.MessageChannel) (m : MqttMessage) (w : r.World)
      → permit n (r.try_send_message c m w).1 ≡ permit n w
  pub issued-try_send :
      (n : r.Notify) (c : r.MessageChannel) (m : MqttMessage) (w : r.World)
      → issued n w
      → issued n (r.try_send_message c m w).1
  pub permit-scion_send_to :
      (n : r.Notify) (bytes : Bytes) (a : A) (w : r.World)
      → permit n (r.scion_send_to bytes a w).1 ≡ permit n w
  pub issued-scion_send_to :
      (n : r.Notify) (bytes : Bytes) (a : A) (w : r.World)
      → issued n w
      → issued n (r.scion_send_to bytes a w).1
  pub issued-recv_message :
      (n : r.Notify) (c : r.MessageChannel) (w : r.World)
      → issued n w
      → issued n (r.recv_message c w).1
