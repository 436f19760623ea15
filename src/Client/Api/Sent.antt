-- ===== src/Client/Api/Sent.antt =====
-- client/mod.rs: what `subscribe` and `publish` have done when they return.
use Prim.Native.String.{String}
use mqtt_rust_scion.Prelude.{◌≡◌, refl, ap, subst, ◌∙◌, true, Option, none, some, arith}
use mqtt_rust_scion.Rust.{Bytes, ok}
use mqtt_rust_scion.Exec.{Exec, after, ◌>>=◌, >>=-ok, ok_or->>=, check->>}
use mqtt_rust_scion.Extern.Mqtt.{at_least_once}
use mqtt_rust_scion.Extern.ClientCrates.{ClientCrates}
use mqtt_rust_scion.Client.Connection.{Request, subscribe_to, publish_message}
use mqtt_rust_scion.Client.Setup.{ClientHost}
use mqtt_rust_scion.Client.Api.{
  RequestRuntime, Session, waits_for, await, submit, subscribe, publish,
}

module _ (x : ClientCrates) (h : ClientHost x) (r : RequestRuntime x) where
  -- The client was connected and had its channel; the request went into the channel with a new
  -- notification, and the notification came.
  pub record Sent (req : Request) (s : Session x h r) : Type 0 where
    pub is_connected : s.connected ≡ true
    pub sender : r.RequestChannel
    pub has_sender : s.request_stream ≡ some sender
    pub accepted :
        let (n, w) = x.new_notify s.world in (r.send_request sender req n w).0 ≡ some true
    pub notified :
        let (n, w) = x.new_notify s.world in
        (x.notified n (r.send_request sender req n w).1).0 ≡ true

  waits_for->>= :
      {A B : Type 0} {b : B} (o : Option A) (rest : A → Exec (Session x h r) B) (s : Session x h r)
      → ((waits_for x h r o >>= rest) s).0 ≡ ok b
      → (a : A) × (o ≡ some a) × ((rest a s).0 ≡ ok b)
  waits_for->>= none rest s e = cc
  waits_for->>= (some a) rest s e = (a, refl, e)

  await-ok :
      (n : x.Notify) (s : Session x h r)
      → (await x h r n s).0 ≡ ok tt
      → (x.notified n s.world).0 ≡ true
  unfolding await
  await-ok n s e = ground arith

  -- The steps of `submit`, and what they return.
  submit_lem :
      (failure : String) (req : Request) (s : Session x h r) (sender : r.RequestChannel)
      → s.connected ≡ true
      → s.request_stream ≡ some sender
      → (let (n, w) = x.new_notify s.world in (r.send_request sender req n w).0 ≡ some true)
      → let (n, w) = x.new_notify s.world in
        submit x h r failure req s ≡ (ok n, record s { world = (r.send_request sender req n w).1 })
  unfolding submit
  submit_lem failure req s sender is_connected has_sender accepted = ground arith

  submit-Sent :
      (failure : String) (req : Request) (s : Session x h r)
      → ((submit x h r failure req >>= await x h r) s).0 ≡ ok tt
      → Sent req s
  unfolding submit
  submit-Sent failure req s e =
      let (_, submitted, _, _) = >>=-ok (submit x h r failure req) (await x h r) s e in
      let (is_connected, e1) = check->> s.connected _ _ s submitted in
      let (n, w) = x.new_notify s.world in
      let (sender, has_sender, e2) = ok_or->>= s.request_stream _ _ (record s { world = w }) e1 in
      let (answer, w2) = r.send_request sender req n w in
      let (sent, answered, e3) = waits_for->>= answer _ (record s { world = w2 }) e2 in
      let (ok_sent, e4) = check->> sent _ _ (record s { world = w2 }) e3 in
      let accepted = answered ∙ ap some ok_sent in
      let ends = submit_lem failure req s sender is_connected has_sender accepted in
      record {
        is_connected = is_connected;
        sender = sender;
        has_sender = has_sender;
        accepted = accepted;
        notified =
            await-ok n (record s { world = w2 })
              (subst (λ q. (after q.0 (await x h r) q.1).0 ≡ ok tt) ends e);
      }

  -- `publish` returns only when the client is connected, the task has accepted the message, with QoS 1,
  -- and the notification that was made for it has come.
  pub publish-Sent :
      (topic : String) (payload : Bytes) (s : Session x h r)
      → (publish x h r topic payload s).0 ≡ ok tt
      → Sent (publish_message (record { topic = topic; qos = at_least_once; payload = payload })) s
  unfolding publish
  publish-Sent topic payload s e = submit-Sent "failed to send publish request" _ s e

  pub subscribe-Sent :
      (topic : String) (s : Session x h r)
      → (subscribe x h r topic s).0 ≡ ok tt
      → Sent (subscribe_to topic) s
  unfolding subscribe
  subscribe-Sent topic s e = submit-Sent "failed to send subscribe request" (subscribe_to topic) s e
