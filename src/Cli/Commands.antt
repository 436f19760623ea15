-- ===== src/Cli/Commands.antt =====
-- main.rs: what the command `publish` has done when it ends well, and when the loop of `subscribe` ends.
use Prim.Native.String.{String}
use mqtt_rust_scion.Prelude.{ℕ, zero, suc, ◌<◌, ◌≡◌, refl, some, List, [], ◌∷◌, length, arith}
use mqtt_rust_scion.Rust.{Bytes, ok, err, message}
use mqtt_rust_scion.Extern.Mqtt.{MqttMessage}
use mqtt_rust_scion.Extern.ClientCrates.{ClientCrates, ClosedLaws}
use mqtt_rust_scion.Client.Setup.{ClientHost}
use mqtt_rust_scion.Client.Api.{RequestRuntime, Session, rcv}
use mqtt_rust_scion.Client.Api as Client
use mqtt_rust_scion.Client.Api.Sent.{Sent}
use mqtt_rust_scion.Client.Api.Connected.{Connected}
use mqtt_rust_scion.Cli.{Tracing, receive_all}

module _ (x : ClientCrates) (h : ClientHost x) (r : RequestRuntime x) (tracing : Tracing x.World)
    (utf8 : String → Bytes) where
  -- `rcv` on a channel that is closed: the messages left in it, in order, and then an error.
  rcv-left :
      (laws : ClosedLaws x.ScionAddr x.runtime) (s : Session x h r) (c : x.MessageChannel)
      (m : MqttMessage) (rest : List MqttMessage)
      → s.message_stream ≡ some c
      → laws.IsClosed c s.world
      → laws.queue c s.world ≡ m ∷ rest
      → rcv x h r s ≡ (ok m, record s { world = (x.recv_message c s.world).1 })
  unfolding rcv
  rcv-left laws s c m rest stream shut left =
      rw (stream, (laws.recv-left c m rest s.world shut left).0) refl

  rcv-empty :
      (laws : ClosedLaws x.ScionAddr x.runtime) (s : Session x h r) (c : x.MessageChannel)
      → s.message_stream ≡ some c
      → laws.IsClosed c s.world
      → laws.queue c s.world ≡ []
      → rcv x h r s ≡ (
        err (message "No message stream available"),
        record s { world = (x.recv_message c s.world).1 },
      )
  unfolding rcv
  rcv-empty laws s c stream shut left = rw (stream, (laws.recv-empty c s.world shut left).0) refl

  receive_all_cases :
      (laws : ClosedLaws x.ScionAddr x.runtime) (fuel : ℕ) (s : Session x h r)
      (c : x.MessageChannel) (left : List MqttMessage)
      → s.message_stream ≡ some c
      → laws.IsClosed c s.world
      → laws.queue c s.world ≡ left
      → length left < fuel
      → let (outcome, t) = receive_all x h r tracing utf8 fuel s in
        (outcome ≡ ok tt) × (laws.queue c t.world ≡ [])
  unfolding receive_all
  receive_all_cases laws zero s c left stream shut same lt = absurd (omega arith)
  receive_all_cases laws (suc fuel) s c [] stream shut same lt =
      let (_, emptied) = laws.recv-empty c s.world shut same in
      rw (rcv-empty laws s c stream shut same) (refl, emptied)
  receive_all_cases laws (suc fuel) s c (m ∷ rest) stream shut same lt =
      let (_, taken, still) = laws.recv-left c m rest s.world shut same in
      rw (rcv-left laws s c m rest stream shut same) (
        receive_all_cases laws fuel (record s { world = (x.recv_message c s.world).1 }) c rest
          stream still taken (omega (arith, lt)))

  -- When the task is gone and the channel of messages is closed, the loop of `subscribe` ends well, by
  -- any fuel above the number of messages that are left, and it has taken all of them.
  pub receive_all-IsClosed :
      (laws : ClosedLaws x.ScionAddr x.runtime) (fuel : ℕ) (s : Session x h r)
      (c : x.MessageChannel)
      → s.message_stream ≡ some c
      → laws.IsClosed c s.world
      → length (laws.queue c s.world) < fuel
      → let (outcome, t) = receive_all x h r tracing utf8 fuel s in
        (outcome ≡ ok tt) × (laws.queue c t.world ≡ [])
  receive_all-IsClosed laws fuel s c stream shut lt =
      receive_all_cases laws fuel s c (laws.queue c s.world) stream shut refl lt
