-- ===== src/Tests/Programs.antt =====
-- Examples of the theorems about the command line and the Python bindings.
use Prim.Native.String.{String}
use mqtt_rust_scion.Prelude.{
  ℕ, length, ◌<◌, ◌≡◌, refl, ◌⊎◌, true, false, Option, none, some, [], ◌∷◌, nat_eq, arith,
}
use mqtt_rust_scion.Rust.{ascii, Error, ok, err, message}
use mqtt_rust_scion.Extern.Mqtt.{at_least_once}
use mqtt_rust_scion.Client.Setup
use mqtt_rust_scion.Client.Api.{Session, connect, publish, rcv}
use mqtt_rust_scion.Client.Api as Client
use mqtt_rust_scion.Client.Api.Sent.{Sent}
use mqtt_rust_scion.Client.Api.Connected.{Connected}
use mqtt_rust_scion.Cli.{ProxyOpt, Tracing, publish as publish_command, ClientOpt, receive_all}
use mqtt_rust_scion.Cli.Serving.{Ends, run_proxy-Ends}
use mqtt_rust_scion.Proxy.Run.{datagram}
use mqtt_rust_scion.Cli.Commands.{receive_all-IsClosed}
use mqtt_rust_scion.Python.{
  Locks, PyClientConfig, PyMqttClient, PyErr, value_error, connection_error, Parsers,
}
use mqtt_rust_scion.Python as Python
use mqtt_rust_scion.Python.Lock.{connect-raised}
use mqtt_rust_scion.Tests.ClientSamples.{ClientWorld, toy_client, toy_closed-laws}
use mqtt_rust_scion.Proxy.System.{quic_endpoint}
use mqtt_rust_scion.Tests.Samples.{toy, toy_hmac-laws, ToyWorld, new_world, ip_of}
use mqtt_rust_scion.Tests.SetupSamples.{toy_host, toy_quic_config-laws}
use mqtt_rust_scion.Tests.Setup.{generate}
use mqtt_rust_scion.Tests.ClientApi.{awake, host, fill, requests, session}

abbrev quiet : (W : Type 0) → Tracing W
quiet W = record { Level = ℕ; try_init = λ level w. (true, w) }

abbrev proxy_opt : ProxyOpt toy (toy_host ToyWorld) (quiet ToyWorld)
proxy_opt = record {
  listen = 2;
  endhost_api_address = some "http://api";
  snap_token_path = some "token";
  acl = none;
  ca_cert_path = "ca.pem";
  cert_path = "cert.pem";
  key_path = "key.pem";
  mode = quic_endpoint;
  mqtt_broker_address = ip_of 9;
  log_level = 2;
}

run_proxy-Ends_example :
    Ends toy
      (toy_host ToyWorld)
      (quiet ToyWorld)
      toy_hmac-laws
      (toy_quic_config-laws ToyWorld)
      generate
      proxy_opt
      (datagram (0 ∷ 1 ∷ []) 3 ∷ [])
      new_world
run_proxy-Ends_example =
    run_proxy-Ends toy (toy_host ToyWorld) (quiet ToyWorld) toy_hmac-laws
      (toy_quic_config-laws ToyWorld) generate proxy_opt (datagram (0 ∷ 1 ∷ []) 3 ∷ []) new_world

-- One message is there, and the channel is closed.
abbrev listening : Session toy_client host requests
listening = session (some 0) (record {
  queued = record { topic = "t"; qos = at_least_once; payload = [] } ∷ [];
  made = 1;
  permits = λ n. false;
})

left_in : length (toy_closed-laws.queue 0 listening.world) < 2
left_in = omega arith

closed_channel : toy_closed-laws.IsClosed 0 listening.world
closed_channel = refl

receive_all-IsClosed_example :
    let (outcome, t) = receive_all toy_client host requests (quiet ClientWorld) ascii 2 listening in
    (outcome ≡ ok tt) × (toy_closed-laws.queue 0 t.world ≡ [])
receive_all-IsClosed_example =
    receive_all-IsClosed toy_client host requests (quiet ClientWorld) ascii toy_closed-laws 2
      listening 0 refl closed_channel left_in

abbrev client_opt : ClientOpt toy_client host requests (quiet ClientWorld) ascii
client_opt = record {
  remote = 3;
  host = some "proxy";
  bind = some 6;
  endhost_api_address = "http://api";
  snap_token_path = none;
  acl = none;
  ca_cert_path = "ca.pem";
  cert_path = "cert.pem";
  key_path = "key.pem";
  client_id = "sensor";
  log_level = 2;
  command = publish_command (record { topic = "temperature"; payload = "21" });
}

-- The empty text does not parse.
abbrev parse : {A : Type 0} → A → String → Option A
parse a String.[] = none
parse a (String.◌∷◌ c text) = some a

abbrev parsers : Parsers String String ℕ
parsers = record {
  parse_url = λ text. some text;
  parse_addr = parse 6;
  from_utf8 = λ bytes. some "";
  path_buf = λ text. text;
}

abbrev py_config : PyClientConfig
py_config = record {
  client_id = "sensor";
  endhost_api_address = "http://api";
  ca_cert_path = "ca.pem";
  cert_path = "cert.pem";
  key_path = "key.pem";
  bind_address = some "";
  host = none;
  snap_token_path = none;
}

-- A mutex that is free.
abbrev free : Locks ClientWorld
free = record { Mutex = Unit; new_mutex = λ w. (tt, w); lock = λ m w. (true, w); unlock = λ m w. w }

abbrev py_client : PyMqttClient toy_client host requests parsers free
py_client = record { inner = session (some 100) awake; mutex = tt }

connect-raised_example :
    ((parsers.parse_addr "" ≡ none)
      × (value_error (message "Invalid SCION address")
          ≡ value_error (message "Invalid SCION address"))
      × ((Python.connect toy_client host requests parsers free fill "" py_client).1 ≡ py_client))
    ⊎ ((addr : ℕ) × (cause : Error) × (parsers.parse_addr "" ≡ some addr)
        × (true ≡ true)
        × ((Client.connect toy_client host requests fill addr py_client.inner).0 ≡ err cause)
        × (value_error (message "Invalid SCION address")
            ≡ connection_error "Connection failed" cause)
        × ((Python.connect toy_client host requests parsers free fill "" py_client).1.world
            ≡ (Client.connect toy_client host requests fill addr py_client.inner).1.world))
unfolding Python.connect
connect-raised_example =
    connect-raised toy_client host requests parsers free fill "" py_client
      (value_error (message "Invalid SCION address")) refl
