-- ===== src/Client/Api/Connected.antt =====
-- client/mod.rs, `connect`: what a client has when it is connected.
use mqtt_rust_scion.Prelude.{ℕ, ◌≡◌, refl, sym, subst, true, Option, some, ◌∷◌, arith}
use mqtt_rust_scion.Rust.{Bytes, ok}
use mqtt_rust_scion.Exec.{Exec, modify, >>=-ok}
use mqtt_rust_scion.Extern.QuicConfig.{QuicConfigLaws}
use mqtt_rust_scion.Extern.ClientCrates.{ClientCrates}
use mqtt_rust_scion.Net.Quic.{configure_quic}
use mqtt_rust_scion.Client.Connection.{Connection}
use mqtt_rust_scion.Client.Setup.{ClientHost, ClientConfig}
use mqtt_rust_scion.Client.Setup
use mqtt_rust_scion.Client.Setup.Opened.{Opened, new-Opened}
use mqtt_rust_scion.Client.Api.{
  RequestRuntime, Client, Session, in_world, await, open_connection, connect,
}

module _ (x : ClientCrates) (h : ClientHost x) (r : RequestRuntime x) where
  -- Of the session `s`, `t` is made by one new connection, whose task runs.
  pub record Connected (laws : QuicConfigLaws x.World x.Config h.quic_config) (remote : x.ScionAddr)
      (s t : Session x h r) : Type 0 where
    pub local_addr : x.ScionAddr
    pub connection : Connection x
    pub spawns : t.spawned ≡ (local_addr, connection) ∷ s.spawned
    pub is_connected : t.connected ≡ true
    pub messages : x.MessageChannel
    pub has_messages : t.message_stream ≡ some messages
    pub requests : r.RequestChannel
    pub has_requests : t.request_stream ≡ some requests
    pub world : x.World
    pub opened :
        Opened x h laws s.config remote s.connect_notification messages world local_addr connection

  module _ (laws : QuicConfigLaws x.World x.Config h.quic_config) where
    -- When `connect` returns, the task of one new connection has been spawned, opened by the client's
    -- configuration to `remote`, with the client's notification and the channel that the client reads
    -- messages from, and the client counts as connected and has a channel of requests.
    pub connect-Connected :
        (fill : ℕ → x.World → Option Bytes × x.World) (remote : x.ScionAddr) (s : Session x h r)
        → (connect x h r fill remote s).0 ≡ ok tt
        → Connected laws remote s (connect x h r fill remote s).1
    unfolding connect open_connection await
    connect-Connected fill remote s e =
        let (messages, w) = x.message_channel 100 s.world in
        let (requests, w1) = r.request_channel 1 w in
        let (_, opened, _, _) = >>=-ok (open_connection x h r fill remote) _ s e in
        let self : Client x h r = record s.client {
          request_stream = some requests;
          message_stream = some messages;
        } in
        let made : Exec x.World (x.ScionAddr × Connection x) =
          Setup.new x h fill s.config remote s.connect_notification messages in
        let spawn : x.ScionAddr × Connection x → Exec (Session x h r) (Unit {0}) =
          λ connection. modify (λ s. record s { spawned = connection ∷ s.spawned }) in
        let ((addr, c), new_ok, _, _) =
          >>=-ok (in_world x h r made) spawn (record s { client = self; world = w1 }) opened in
        let w2 = (made w1).1 in
        let came : (x.notified s.connect_notification w2).0 ≡ true = ground arith in
        let ends : connect x h r fill remote s ≡ (
          ok tt,
          record {
            client = record self { connected = true };
            spawned = (addr, c) ∷ s.spawned;
            world = (x.notified s.connect_notification w2).1;
          },
        ) =
          ground arith in
        subst (λ q. Connected laws remote s q.1) (sym ends)
          (record {
            local_addr = addr;
            connection = c;
            spawns = refl;
            is_connected = refl;
            messages = messages;
            has_messages = refl;
            requests = requests;
            has_requests = refl;
            world =
                (configure_quic h s.config.ca_cert_path s.config.cert_path s.config.key_path w1).1;
            opened =
                new-Opened x h laws fill s.config remote s.connect_notification messages w1 addr c
                  new_ok;
          })
