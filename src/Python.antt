-- ===== src/Python.antt =====
-- python.rs: the classes that Python sees, over the client. A future that a method returns is the body
-- that runs when it is awaited; `pyo3` and the Python runtime are not modelled.
pub mod Config
pub mod Lock
use Prim.Native.String.{String}
use mqtt_rust_scion.Prelude.{ℕ, Bool, true, false, Option, none, some, if◌then◌else◌}
use mqtt_rust_scion.Rust.{Bytes, Error, Outcome, ok, err, panicked, waiting, no_fuel, message}
use mqtt_rust_scion.Extern.Mqtt.{MqttMessage}
use mqtt_rust_scion.Extern.ClientCrates.{ClientCrates}
use mqtt_rust_scion.Exec.{Exec}
use mqtt_rust_scion.Client.Setup.{ClientHost, ClientConfig}
use mqtt_rust_scion.Client.Api.{RequestRuntime, Session}
use mqtt_rust_scion.Client.Api as Client

pub record PyMqttMessage : Type 0 where
  pub topic : String
  pub payload : Bytes

abbrev pub from_message : MqttMessage → PyMqttMessage
from_message msg = record { topic = msg.topic; payload = msg.payload }

pub record PyClientConfig : Type 0 where
  pub client_id : String
  pub endhost_api_address : String
  pub ca_cert_path : String
  pub cert_path : String
  pub key_path : String
  pub bind_address : Option String
  pub host : Option String
  pub snap_token_path : Option String

-- `tokio::sync::Mutex`: `lock().await` returns once the mutex is free and takes it, or waits for ever
-- (`false`), and `unlock` is what the drop of the guard does. The state of the mutexes is in the world.
pub record Locks (World : Type 0) : Type 1 where
  pub Mutex : Type 0
  pub new_mutex : World → Mutex × World
  pub lock : Mutex → World → Bool × World
  pub unlock : Mutex → World → World

-- `PyValueError`, `PyConnectionError` and `PyRuntimeError`, with the text that the wrapper puts before
-- the error of the client.
pub data PyErr : Type 0 where
  value_error : Error → PyErr
  connection_error runtime_error : String → Error → PyErr

-- `PyResult`
pub data PyResult (A : Type 0) : Type 0 where
  returned : A → PyResult A
  raised : PyErr → PyResult A

-- `map_err(…)?` at the end of a body
abbrev pub map_err : {A : Type 0} → (Error → PyErr) → Outcome A → Outcome (PyResult A)
map_err f (ok a) = ok (returned a)
map_err f (err e) = ok (raised (f e))
map_err f panicked = panicked
map_err f waiting = waiting
map_err f no_fuel = no_fuel

-- Parsing and paths, of the crates `url`, `scion_proto` and the standard library. `none` is an error.
pub record Parsers (Url FilePath ScionAddr : Type 0) : Type 0 where
  pub parse_url : String → Option Url
  pub parse_addr : String → Option ScionAddr
  pub from_utf8 : Bytes → Option String
  pub path_buf : String → FilePath

module _ (x : ClientCrates) (h : ClientHost x) (r : RequestRuntime x)
    (p : Parsers h.Url h.FilePath x.ScionAddr) where
  unfoldable pub payload_str : PyMqttMessage → PyResult String
  payload_str self = elim (p.from_utf8 self.payload) [
    | none ↦ raised (value_error (message "Invalid UTF-8"))
    | some text ↦ returned text
  ]

  abbrev pub parse_bind : Option String → PyResult (Option x.ScionAddr)
  parse_bind none = returned none
  parse_bind (some bind_str) = elim (p.parse_addr bind_str) [
    | none ↦ raised (value_error (message "Invalid bind address"))
    | some bind ↦ returned (some bind)
  ]

  abbrev pub map_path : Option String → Option h.FilePath
  map_path none = none
  map_path (some path) = some (p.path_buf path)

  unfoldable pub try_from : PyClientConfig → PyResult (ClientConfig x h)
  try_from config = elim (p.parse_url config.endhost_api_address) [
    | none ↦ raised (value_error (message "Invalid endhost API URL"))
    | some url ↦ elim (parse_bind config.bind_address) [
      | raised e ↦ raised e
      | returned bind ↦ returned (record {
        bind = bind;
        host = config.host;
        endhost_api_address = url;
        snap_token_path = map_path config.snap_token_path;
        acl_policy = none;
        ca_cert_path = p.path_buf config.ca_cert_path;
        cert_path = p.path_buf config.cert_path;
        key_path = p.path_buf config.key_path;
        client_id = config.client_id;
      })
    ]
  ]

  module _ (locks : Locks x.World) where
    -- The client in its mutex.
    pub record PyMqttClient : Type 0 where
      pub inner : Session x h r
      pub open inner use *
      pub mutex : locks.Mutex

    abbrev pub at_world : Session x h r → x.World → Session x h r
    at_world client w = record client { world = w }

    -- The client is made in the world `w`.
    unfoldable pub new : PyClientConfig → x.World → PyResult PyMqttClient
    new config w = elim (try_from config) [
      | raised e ↦ raised e
      | returned rust_config ↦
          let client = Client.new x h r rust_config w in
          let (mutex, w') = locks.new_mutex client.world in
          returned (record { inner = at_world client w'; mutex = mutex })
    ]

    -- The guard is dropped when the body ends. A body that waits still holds it.
    abbrev pub drop_guard : {A : Type 0} → locks.Mutex → Outcome A → x.World → x.World
    drop_guard mutex waiting w = w
    drop_guard mutex _ w = locks.unlock mutex w

    -- The body on the client, once `lock` has returned.
    abbrev pub if_locked : {A : Type 0} → Bool → Exec (Session x h r) A → Exec PyMqttClient A
    if_locked false body self = (waiting, self)
    if_locked true body self =
        let (outcome, client) = body self.inner in
        (
          outcome,
          record self { inner = at_world client (drop_guard self.mutex outcome client.world) },
        )

    -- `let mut client = inner.lock().await` and the body on the client.
    unfoldable pub with_lock : {A : Type 0} → Exec (Session x h r) A → Exec PyMqttClient A
    with_lock body self =
        let (acquired, w) = locks.lock self.mutex self.world in
        if_locked acquired body (record self { inner = at_world self.inner w })

    -- A call of a method, until its future ends.
    abbrev pub Call : Type 0 → Type 0
    Call A = PyMqttClient → Outcome (PyResult A) × PyMqttClient

    abbrev pub raising : {A : Type 0} → (Error → PyErr) → Exec PyMqttClient A → Call A
    raising f body self = let (outcome, self') = body self in (map_err f outcome, self')

    abbrev pub parse_scion_address : String → Option x.ScionAddr
    parse_scion_address = p.parse_addr

    unfoldable pub connect : (ℕ → x.World → Option Bytes × x.World) → String → Call (Unit {0})
    connect fill remote self = elim (parse_scion_address remote) [
      | none ↦ (ok (raised (value_error (message "Invalid SCION address"))), self)
      | some remote_addr ↦
          raising (connection_error "Connection failed")
            (with_lock (Client.connect x h r fill remote_addr)) self
    ]

    unfoldable pub subscribe : String → Call (Unit {0})
    subscribe topic =
        raising (runtime_error "Subscribe failed") (with_lock (Client.subscribe x h r topic))

    unfoldable pub publish : String → Bytes → Call (Unit {0})
    publish topic payload =
        raising (runtime_error "Publish failed") (with_lock (Client.publish x h r topic payload))

    abbrev pub map_message : Outcome (PyResult MqttMessage) → Outcome (PyResult PyMqttMessage)
    map_message (ok (returned msg)) = ok (returned (from_message msg))
    map_message (ok (raised e)) = ok (raised e)
    map_message (err e) = err e
    map_message panicked = panicked
    map_message waiting = waiting
    map_message no_fuel = no_fuel

    unfoldable pub receive : Call PyMqttMessage
    receive self =
        let (outcome, self') =
          raising (runtime_error "Receive failed") (with_lock (Client.rcv x h r)) self in
        (map_message outcome, self')
