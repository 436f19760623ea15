-- ===== src/Cli.antt =====
-- main.rs: the options of the command line and what each command runs. The parser `clap` and the
-- logger are not modelled: the options arrive parsed, and `try_init` says whether logging was set up.
pub mod Commands
pub mod Serving
use Prim.Native.String.{String}
use mqtt_rust_scion.Prelude.{ℕ, zero, suc, Bool, Option, none, some, List, []}
use mqtt_rust_scion.Rust.{Bytes, SocketAddr, Outcome, ok, err, panicked, waiting, no_fuel, message}
use mqtt_rust_scion.Exec.{Exec, ◌>>=◌, ◌>>◌, pure, out_of_fuel, modify, check}
use mqtt_rust_scion.Extern.Mqtt.{MqttMessage}
use mqtt_rust_scion.Extern.Crates.{Crates}
use mqtt_rust_scion.Extern.ClientCrates.{ClientCrates}
use mqtt_rust_scion.Proxy.System.{Mode, Proxy as ProxyState, System}
use mqtt_rust_scion.Proxy.Run.{Event}
use mqtt_rust_scion.Proxy.Setup.{ProxyHost, StartConfig}
use mqtt_rust_scion.Proxy.Setup as Proxy
use mqtt_rust_scion.Client.Setup.{ClientHost, ClientConfig}
use mqtt_rust_scion.Client.Api.{RequestRuntime, Session}
use mqtt_rust_scion.Client.Api as Client

pub record PublishOpt : Type 0 where
  pub topic : String
  pub payload : String

pub record SubscribeOpt : Type 0 where
  pub topic : String

pub data ClientCommand : Type 0 where
  publish : PublishOpt → ClientCommand
  subscribe : SubscribeOpt → ClientCommand

-- `tracing`: its levels, and `try_init` on a world, `false` for an error.
pub record Tracing (World : Type 0) : Type 1 where
  pub Level : Type 0
  pub try_init : Level → World → Bool × World

abbrev pub init_tracing : {World : Type 0} (t : Tracing World) → t.Level → Exec World (Unit {0})
init_tracing t level w =
    let (initialised, w') = t.try_init level w in
    check initialised (message "failed to init tracing") w'

module _ (x : Crates) (h : ProxyHost x) (tracing : Tracing x.World) where
  pub record ProxyOpt : Type 0 where
    pub listen : x.ScionAddr
    pub endhost_api_address : Option h.Url
    pub snap_token_path : Option h.FilePath
    pub acl : Option h.AclPolicy
    pub ca_cert_path : h.FilePath
    pub cert_path : h.FilePath
    pub key_path : h.FilePath
    pub mode : Mode
    pub mqtt_broker_address : SocketAddr
    pub log_level : tracing.Level

  abbrev pub proxy_config : ProxyOpt → StartConfig x h
  proxy_config opt = record {
    running = record {
      listen = opt.listen;
      mode = opt.mode;
      mqtt_broker_address = opt.mqtt_broker_address;
    };
    endhost_api_address = opt.endhost_api_address;
    snap_token_path = opt.snap_token_path;
    acl_policy = opt.acl;
    ca_cert_path = opt.ca_cert_path;
    cert_path = opt.cert_path;
    key_path = opt.key_path;
  }

  -- `run` has no exit but by an error or a panic: once the listed events are served, it waits for the
  -- next one.
  abbrev pub loops : Outcome (Unit {0}) → Outcome (Unit {0})
  loops (ok tt) = waiting
  loops (err e) = err e
  loops panicked = panicked
  loops waiting = waiting
  loops no_fuel = no_fuel

  -- The state of the proxy is made here, and so not returned.
  abbrev pub run_new :
      StartConfig x h → List (Event x.ScionAddr) → ProxyState x → Exec x.World (Unit {0})
  run_new config events proxy w =
      let (outcome, s) =
        Proxy.run x h config events
          (record { proxy = proxy; quic_tasks = []; udp_tasks = []; world = w }) in
      (loops outcome, s.world)

  -- The proxy of the options, when `events` arrive.
  unfoldable pub run_proxy :
      (x.World → Option x.Key × x.World)
      → ProxyOpt
      → List (Event x.ScionAddr)
      → Exec x.World (Unit {0})
  run_proxy generate opt events = do
    init_tracing tracing opt.log_level
    proxy ← Proxy.new x h generate (proxy_config opt)
    run_new (proxy_config opt) events proxy

module _ (x : ClientCrates) (h : ClientHost x) (r : RequestRuntime x) (tracing : Tracing x.World)
    (utf8 : String → Bytes) where
  pub record ClientOpt : Type 0 where
    pub remote : x.ScionAddr
    pub host : Option String
    pub bind : Option x.ScionAddr
    pub endhost_api_address : h.Url
    pub snap_token_path : Option h.FilePath
    pub acl : Option h.AclPolicy
    pub ca_cert_path : h.FilePath
    pub cert_path : h.FilePath
    pub key_path : h.FilePath
    pub client_id : String
    pub log_level : tracing.Level
    pub command : ClientCommand

  abbrev pub client_config : ClientOpt → ClientConfig x h
  client_config opt = record {
    bind = opt.bind;
    host = opt.host;
    endhost_api_address = opt.endhost_api_address;
    snap_token_path = opt.snap_token_path;
    acl_policy = opt.acl;
    ca_cert_path = opt.ca_cert_path;
    cert_path = opt.cert_path;
    key_path = opt.key_path;
    client_id = opt.client_id;
  }

  abbrev pub if_received :
      Exec (Session x h r) (Unit {0})
      → Outcome MqttMessage × Session x h r
      → Outcome (Unit {0}) × Session x h r
  if_received rest (ok m, s) = rest s
  if_received rest (err e, s) = (ok tt, s)
  if_received rest (panicked, s) = (panicked, s)
  if_received rest (waiting, s) = (waiting, s)
  if_received rest (no_fuel, s) = (no_fuel, s)

  -- `while let Ok(message) = client.rcv().await`, without the log lines.
  unfoldable pub receive_all : ℕ → Exec (Session x h r) (Unit {0})
  receive_all zero s = out_of_fuel s
  receive_all (suc fuel) s = let rest = receive_all fuel in if_received rest (Client.rcv x h r s)

  -- `as_bytes` is `utf8`.
  unfoldable pub run_command : ℕ → ClientCommand → Exec (Session x h r) (Unit {0})
  run_command fuel (publish opt) = Client.publish x h r opt.topic (utf8 opt.payload)
  run_command fuel (subscribe opt) = do Client.subscribe x h r opt.topic; receive_all fuel

  abbrev pub with_client :
      (ℕ → x.World → Option Bytes × x.World) → ℕ → ClientOpt → Exec (Session x h r) (Unit {0})
  with_client fill fuel opt = do Client.connect x h r fill opt.remote; run_command fuel opt.command

  unfoldable pub run_client :
      (ℕ → x.World → Option Bytes × x.World) → ℕ → ClientOpt → Exec x.World (Unit {0})
  run_client fill fuel opt = do
    init_tracing tracing opt.log_level
    (λ w.
        let (outcome, s) = with_client fill fuel opt (Client.new x h r (client_config opt) w) in
        (outcome, s.world))

-- The two commands, each in its world.
module _ (x : Crates) (h : ProxyHost x) (tracing : Tracing x.World) (y : ClientCrates)
    (k : ClientHost y) (r : RequestRuntime y) (client_tracing : Tracing y.World)
    (utf8 : String → Bytes) where
  pub data Command : Type 0 where
    proxy : ProxyOpt x h tracing → Command
    client : ClientOpt y k r client_tracing utf8 → Command

  pub record Cli : Type 0 where
    pub command : Command

  -- `main`, without the log line of an error, which it returns.
  unfoldable pub main :
      (x.World → Option x.Key × x.World)
      → List (Event x.ScionAddr)
      → (ℕ → y.World → Option Bytes × y.World)
      → ℕ
      → Cli
      → x.World
      → y.World
      → Outcome (Unit {0})
  main generate events fill fuel cli w v = elim cli.command [
    | proxy opt ↦ (run_proxy x h tracing generate opt events w).0
    | client opt ↦ (run_client y k r client_tracing utf8 fill fuel opt v).0
  ]
