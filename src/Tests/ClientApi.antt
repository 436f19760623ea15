-- ===== src/Tests/ClientApi.antt =====
-- Examples of the theorems about the methods of a client and its new connections.
use mqtt_rust_scion.Prelude.{ℕ, refl, true, false, Option, none, some, [], ◌∷◌, nat_eq}
use mqtt_rust_scion.Rust.{Bytes, message}
use mqtt_rust_scion.Extern.Mqtt.{at_least_once}
use mqtt_rust_scion.Net.Quic.{configure_quic, set_limits}
use mqtt_rust_scion.Client.Connection.{Connection, publish_message}
use mqtt_rust_scion.Client.Setup.{ClientHost, ClientConfig, authenticate, check_bind, open_socket}
use mqtt_rust_scion.Client.Setup
use mqtt_rust_scion.Client.Setup.Opened.{Opened}
use mqtt_rust_scion.Client.Api.{
  RequestRuntime, Session, connect, open_connection, await, publish, submit, subscribe, rcv,
}
use mqtt_rust_scion.Client.Api as Client
use mqtt_rust_scion.Client.Api.Connected.{Connected, connect-Connected}
use mqtt_rust_scion.Client.Api.Ready.{here, then, receives, Refusal, publish-Refusal}
use mqtt_rust_scion.Tests.Samples.{new_conn}
use mqtt_rust_scion.Tests.ClientSamples.{ClientWorld, toy_client}
use mqtt_rust_scion.Tests.SetupSamples.{toy_host, toy_quic_config-laws}

abbrev pub awake : ClientWorld
awake = record { queued = []; made = 0; permits = λ n. false }

abbrev pub host : ClientHost toy_client
host = toy_host ClientWorld

abbrev pub config : ClientConfig toy_client host
config = record {
  bind = some 6;
  host = some "proxy";
  endhost_api_address = "http://api";
  snap_token_path = none;
  acl_policy = none;
  ca_cert_path = "ca.pem";
  cert_path = "cert.pem";
  key_path = "key.pem";
  client_id = "sensor";
}

abbrev pub fill : ℕ → ClientWorld → Option Bytes × ClientWorld
fill n w = (some (1 ∷ []), w)

-- The task answers at once: the notification 0 of the client, and that of each request, come.
abbrev pub requests : RequestRuntime toy_client
requests = record {
  RequestChannel = ℕ;
  request_channel = λ n w. (n, toy_client.notify_one 0 w);
  send_request = λ c req n w. (some true, toy_client.notify_one n w);
}

abbrev opened : Connection toy_client
opened = record {
  remote = 3;
  conn = new_conn;
  mqtt_conn = 1;
  client_id = "sensor";
  mqtt_init_sent = false;
  connect_notify = 0;
  message_sender = 100;
  current_request = none;
}

abbrev pub new_session : Session toy_client host requests
new_session = record {
  client = record {
    config = config;
    connect_notification = 0;
    connected = false;
    request_stream = none;
    message_stream = none;
  };
  spawned = [];
  world = record { queued = []; made = 1; permits = λ n. false };
}

connect-Connected_example :
    Connected toy_client host requests
      (toy_quic_config-laws ClientWorld)
      3
      new_session
      (connect toy_client host requests fill 3 new_session).1
unfolding connect open_connection await Setup.new configure_quic set_limits open_socket authenticate
    check_bind
connect-Connected_example =
    connect-Connected toy_client host requests (toy_quic_config-laws ClientWorld) fill 3 new_session
      refl

-- The client has not connected yet.
publish-Refusal_example :
    Refusal toy_client host requests "failed to send publish request"
      (publish_message (record { topic = "temperature"; qos = at_least_once; payload = 2 ∷ [] }))
      (rcv toy_client host requests (Client.new toy_client host requests config awake)).1
      (message "client is not connected")
unfolding publish submit rcv Client.new
publish-Refusal_example =
    publish-Refusal toy_client host requests config awake "temperature" (2 ∷ [])
      (message "client is not connected") (then here receives) refl

-- A client with the channel of messages `stream`, in the world `w`.
abbrev pub session : Option ℕ → ClientWorld → Session toy_client host requests
session stream w = record new_session {
  client = record new_session.client { message_stream = stream };
  world = w;
}
