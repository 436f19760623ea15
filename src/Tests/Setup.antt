-- ===== src/Tests/Setup.antt =====
-- Examples of the theorems about the start of the proxy and of a client's connection.
use Prim.Native.String.{String}
use mqtt_rust_scion.Prelude.{ℕ, ◌≡◌, refl, ◌⊎◌, Option, none, some, [], ◌∷◌, nat_eq}
use mqtt_rust_scion.Rust.{Error, ok, err}
use mqtt_rust_scion.Rust.Text.{is_whitespace, trim_start, trim_end, trim}
use mqtt_rust_scion.Net.Quic.{configure_quic, set_limits}
use mqtt_rust_scion.Net.Quic.Configured.{mutual_tls, configure_quic-settings}
use mqtt_rust_scion.Proxy.System.{quic_endpoint, Proxy, System}
use mqtt_rust_scion.Proxy.Run.{Bound, datagram}
use mqtt_rust_scion.Proxy.Run.Ends.{Stopped}
use mqtt_rust_scion.Proxy.Setup.{StartConfig, set_up, authenticate, run}
use mqtt_rust_scion.Proxy.Setup.Listening.{Listens, set_up-Listens, run_outcome}
use mqtt_rust_scion.Proxy.Setup.Started.{initial}
use mqtt_rust_scion.Extern.QuicConfig.{Settings}
use mqtt_rust_scion.Tests.Samples.{toy, toy_hmac-laws, ToyWorld, new_world, ip_of}
use mqtt_rust_scion.Tests.SetupSamples.{toy_host, toy_quic_config-laws}

abbrev made : Settings
made = mutual_tls (toy_host ToyWorld) (toy_quic_config-laws ToyWorld) "ca.pem" "cert.pem" "key.pem"

configure_quic-settings_example :
    (ca_cert : String) × (cert : String) × (key : String) × (some "ca.pem" ≡ some ca_cert)
    × (some "cert.pem" ≡ some cert)
    × (some "key.pem" ≡ some key)
    × (made ≡ mutual_tls (toy_host ToyWorld) (toy_quic_config-laws ToyWorld) ca_cert cert key)
unfolding configure_quic set_limits
configure_quic-settings_example =
    configure_quic-settings (toy_host ToyWorld) (toy_quic_config-laws ToyWorld) "ca.pem" "cert.pem"
      "key.pem" new_world made refl

abbrev pub start : StartConfig toy (toy_host ToyWorld)
start = record {
  running = record { listen = 2; mode = quic_endpoint; mqtt_broker_address = ip_of 7 };
  endhost_api_address = some "http://api";
  snap_token_path = some "token";
  acl_policy = none;
  ca_cert_path = "ca.pem";
  cert_path = "cert.pem";
  key_path = "key.pem";
}

abbrev bound : Bound ℕ ℕ
bound = record { local_addr = ip_of 2; local_scion_addr = 2; tx_quic_to_udp = 100 }

set_up-Listens_example : Listens toy (toy_host ToyWorld) start new_world bound
unfolding set_up authenticate trim trim_end trim_start is_whitespace
set_up-Listens_example = set_up-Listens toy (toy_host ToyWorld) start new_world bound refl

abbrev pub generate : ToyWorld → Option ℕ × ToyWorld
generate w = (some 5, w)

abbrev proxy : Proxy toy
proxy = record {
  config = start.running;
  quic_config = made;
  token_key = 5;
  conn_id_seed = 5;
  udp_connections = [];
  quic_connections = [];
}

abbrev begun : System toy
begun = initial toy (toy_host ToyWorld) proxy new_world

run_outcome_example :
    let (up, w) = set_up toy (toy_host ToyWorld) start new_world in
    ((b : Bound ℕ ℕ) × Listens toy (toy_host ToyWorld) start new_world b
      × (((run toy (toy_host ToyWorld) start (datagram [] 3 ∷ []) begun).0 ≡ ok tt)
          ⊎ ((stop : Stopped toy toy_hmac-laws b (datagram [] 3 ∷ []) (record begun { world = w }))
              × ((run toy (toy_host ToyWorld) start (datagram [] 3 ∷ []) begun).0
                  ≡ err stop.fault))))
    ⊎ ((e : Error) × (up ≡ err e)
        × ((run toy (toy_host ToyWorld) start (datagram [] 3 ∷ []) begun).0 ≡ err e))
run_outcome_example =
    run_outcome toy (toy_host ToyWorld) toy_hmac-laws start (datagram [] 3 ∷ []) begun
