-- ===== src/Client/Api/Ready.antt =====
-- client/mod.rs: the channel of requests of a client over its calls, and the errors of a request.
use Prim.Native.String.{String}
use mqtt_rust_scion.Prelude.{
  ℕ, ◌≡◌, refl, sym, subst, ap, ◌∙◌, inl, inr, Bool, true, false, Option, none, some, Option-cases,
  Bool-cases, arith,
}
use mqtt_rust_scion.Rust.{Bytes, Error, err, message}
use mqtt_rust_scion.Exec.{Exec, gets, modify, ◌>>=◌}
use mqtt_rust_scion.Exec.Keeps.{Keeps, keeps_rules, Keeps-bind, Keeps-after, Keeps-gets, Keeps-then}
use mqtt_rust_scion.Extern.Mqtt.{at_least_once}
use mqtt_rust_scion.Extern.ClientCrates.{ClientCrates}
use mqtt_rust_scion.Client.Connection.{Request, publish_message}
use mqtt_rust_scion.Client.Setup.{ClientHost, ClientConfig}
use mqtt_rust_scion.Client.Setup
use mqtt_rust_scion.Client.Api.{
  RequestRuntime, Session, in_world, waits_for, await, submit, open_connection, connect, subscribe,
  publish, rcv, new,
}

module _ (x : ClientCrates) (h : ClientHost x) (r : RequestRuntime x) where
  -- A client that is connected has a channel of requests.
  abbrev pub HasChannel : Bool → Option r.RequestChannel → Type 0
  HasChannel true none = ⊥
  HasChannel _ _ = Unit

  pub record IsReady (s : Session x h r) : Type 0 where
    pub channel : HasChannel s.connected s.request_stream

  Keeps-in_world : {B : Type 0} (body : Exec x.World B) → Keeps IsReady (in_world x h r body)
  Keeps-in_world body = record { at = λ s k. record { channel = k.channel } }

  Keeps-waits_for : {B : Type 0} (o : Option B) → Keeps IsReady (waits_for x h r o)
  Keeps-waits_for none = record { at = λ s k. k }
  Keeps-waits_for (some b) = record { at = λ s k. k }

  await-Keeps : (n : x.Notify) → Keeps IsReady (await x h r n)
  unfolding await
  await-Keeps n = record { at = λ s k. record { channel = k.channel } }

  submit-Keeps : (failure : String) (req : Request) → Keeps IsReady (submit x h r failure req)
  unfolding submit
  submit-Keeps failure req = search (keeps_rules, Keeps-in_world, Keeps-waits_for) depth 24

  publish-Keeps : (topic : String) (payload : Bytes) → Keeps IsReady (publish x h r topic payload)
  unfolding publish
  publish-Keeps topic payload = search (keeps_rules, submit-Keeps, await-Keeps) depth 24

  subscribe-Keeps : (topic : String) → Keeps IsReady (subscribe x h r topic)
  unfolding subscribe
  subscribe-Keeps topic = search (keeps_rules, submit-Keeps, await-Keeps) depth 24

  rcv-Keeps : Keeps IsReady (rcv x h r)
  unfolding rcv
  rcv-Keeps = search (keeps_rules, Keeps-in_world, Keeps-waits_for) depth 24

  HasChannel-some : (b : Bool) (c : r.RequestChannel) → HasChannel b (some c)
  HasChannel-some true c = tt
  HasChannel-some false c = tt

  open_connection-channel :
      (fill : ℕ → x.World → Option Bytes × x.World) (remote : x.ScionAddr) (s : Session x h r)
      → let s' = (open_connection x h r fill remote s).1 in
        (c : r.RequestChannel) × (s'.request_stream ≡ some c)
  unfolding open_connection
  open_connection-channel fill remote s =
      let (messages, w) = x.message_channel 100 s.world in
      let (requests, _) = r.request_channel 1 w in
      let P : Session x h r → Type 0 = λ s. s.request_stream ≡ some requests in
      (
        requests,
        (Keeps-bind {P = P}
              (in_world x h r (Setup.new x h fill s.config remote s.connect_notification messages))
              _ (record { at = λ s k. k }) (λ connection. record { at = λ s k. k })).at
            _ refl,
      )

  await-channel :
      (c : r.RequestChannel) (n : x.Notify) → Keeps (λ s. s.request_stream ≡ some c) (await x h r n)
  unfolding await
  await-channel c n = record { at = λ s k. k }

  set_connected-channel :
      (c : r.RequestChannel)
      → Keeps
          (λ s. s.request_stream ≡ some c)
          (modify {S = Session x h r}
            (λ s. record s { client = record s.client { connected = true } }))
  set_connected-channel c = record { at = λ s k. k }

  connect-channel :
      (fill : ℕ → x.World → Option Bytes × x.World) (remote : x.ScionAddr) (s : Session x h r)
      (c : r.RequestChannel)
      → (open_connection x h r fill remote s).1.request_stream ≡ some c
      → (connect x h r fill remote s).1.request_stream ≡ some c
  unfolding connect
  connect-channel fill remote s c opened =
      let (outcome, s') = open_connection x h r fill remote s in
      Keeps-after {P = λ s. s.request_stream ≡ some c} outcome _ s'
        (λ _. Keeps-bind (gets (λ s. s.client)) _ (Keeps-gets (λ s. s.client)) λ self.
          Keeps-then (await x h r self.connect_notification) _
            (await-channel c self.connect_notification) (set_connected-channel c))
        opened

  pub connect-IsReady :
      (fill : ℕ → x.World → Option Bytes × x.World) (remote : x.ScionAddr) (s : Session x h r)
      → IsReady (connect x h r fill remote s).1
  connect-IsReady fill remote s =
      let (c, opened) = open_connection-channel fill remote s in
      let s' = (connect x h r fill remote s).1 in
      record {
        channel =
            subst (HasChannel s'.connected) (sym (connect-channel fill remote s c opened))
              (HasChannel-some s'.connected c);
      }

  -- The calls that a program makes of a client, each from where the last one ended.
  pub data Call (s : Session x h r) : Session x h r → Type 0 where
    connects :
        (fill : ℕ → x.World → Option Bytes × x.World) (remote : x.ScionAddr)
        → Call s (connect x h r fill remote s).1
    subscribes : (topic : String) → Call s (subscribe x h r topic s).1
    publishes : (topic : String) (payload : Bytes) → Call s (publish x h r topic payload s).1
    receives : Call s (rcv x h r s).1
    -- Between two calls the rest of the world goes on.
    goes_on : (w : x.World) → Call s (record s { world = w })

  pub data Calls (s : Session x h r) : Session x h r → Type 0 where
    here : Calls s s
    then : {t u : Session x h r} → Calls s t → Call t u → Calls s u

  Call-IsReady : {s t : Session x h r} → Call s t → IsReady s → IsReady t
  Call-IsReady (connects fill remote) k = connect-IsReady fill remote _
  Call-IsReady (subscribes topic) k = (subscribe-Keeps topic).at _ k
  Call-IsReady (publishes topic payload) k = (publish-Keeps topic payload).at _ k
  Call-IsReady receives k = rcv-Keeps.at _ k
  Call-IsReady (goes_on w) k = record { channel = k.channel }

  Calls-IsReady : {s t : Session x h r} → Calls s t → IsReady s → IsReady t
  Calls-IsReady here k = k
  Calls-IsReady (then calls call) k = Call-IsReady call (Calls-IsReady calls k)

  new-IsReady : (config : ClientConfig x h) (w : x.World) → IsReady (new x h r config w)
  unfolding new
  new-IsReady config w = record { channel = tt }

  -- Why a request fails: the client is not connected, or its task has dropped the channel.
  pub data Refusal (failure : String) (req : Request) (s : Session x h r) : Error → Type 0 where
    unconnected : s.connected ≡ false → Refusal failure req s (message "client is not connected")
    gone :
        (sender : r.RequestChannel)
        → s.connected ≡ true
        → s.request_stream ≡ some sender
        → (let (n, w) = x.new_notify s.world in (r.send_request sender req n w).0 ≡ some false)
        → Refusal failure req s (message failure)

  no_channel : (b : Bool) (c : Option r.RequestChannel) → b ≡ true → c ≡ none → HasChannel b c → ⊥
  no_channel true none is_connected missing h = h
  no_channel true (some c) is_connected missing h = cc
  no_channel false c is_connected missing h = cc

  submit_error :
      (failure : String) (req : Request) (s : Session x h r) (e : Error)
      → IsReady s
      → ((submit x h r failure req >>= await x h r) s).0 ≡ err e
      → Refusal failure req s e
  unfolding submit await
  submit_error failure req s e k failed = elim (Bool-cases s.connected) [
    | inr no_connection ↦
        let same : message "client is not connected" ≡ e = ground arith in
        subst (Refusal failure req s) same (unconnected no_connection)
    | inl is_connected ↦ elim (Option-cases s.request_stream) [
      | inl missing ↦
          absurd (no_channel s.connected s.request_stream is_connected missing k.channel)
      | inr (sender, has) ↦
          let (n, w) = x.new_notify s.world in
          let (answer, w2) = r.send_request sender req n w in
          elim (Option-cases answer) [
            | inl waits ↦ absurd (ground arith)
            | inr (sent, answered) ↦ elim (Bool-cases sent) [
              | inl accepted ↦ absurd (elim (Bool-cases (x.notified n w2).0) [
                | inl came ↦ ground arith
                | inr never ↦ ground arith
              ])
              | inr refused ↦
                  let same : message failure ≡ e = ground arith in
                  subst (Refusal failure req s) same
                    (gone sender is_connected has (answered ∙ ap some refused))
            ]
          ]
    ]
  ]

  -- After any calls of a new client, `publish` returns an error only when the client is not connected, or
  -- when its task is gone and has dropped the channel: a connected client always has one.
  pub publish-Refusal :
      (config : ClientConfig x h) (w : x.World) {s : Session x h r} (topic : String)
      (payload : Bytes) (e : Error)
      → Calls (new x h r config w) s
      → (publish x h r topic payload s).0 ≡ err e
      → Refusal "failed to send publish request"
          (publish_message (record { topic = topic; qos = at_least_once; payload = payload }))
          s
          e
  unfolding publish
  publish-Refusal config w {s} topic payload e calls failed =
      submit_error "failed to send publish request" _ s e
        (Calls-IsReady calls (new-IsReady config w)) failed
