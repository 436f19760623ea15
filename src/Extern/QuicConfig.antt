-- ===== src/Extern/QuicConfig.antt =====
-- The builder of `quiche::Config`.
use Prim.Native.String.{String}
use mqtt_rust_scion.Prelude.{ℕ, ◌≡◌, Bool, Option, some, List}
use mqtt_rust_scion.Rust.{Bytes}

-- `W` is the world that holds the files, `Config` the type that is built. `none` is an error.
pub record QuicConfig (W Config : Type 0) : Type 0 where
  pub protocol_version : ℕ
  pub new_config : ℕ → Option Config
  pub verify_peer : Bool → Config → Config
  pub load_cert_chain_from_pem_file : String → W → Config → Option Config
  pub load_priv_key_from_pem_file : String → W → Config → Option Config
  pub load_verify_locations_from_file : String → W → Config → Option Config
  pub set_application_protos : List Bytes → Config → Option Config
  pub set_max_idle_timeout : ℕ → Config → Config
  pub set_max_recv_udp_payload_size : ℕ → Config → Config
  pub set_max_send_udp_payload_size : ℕ → Config → Config
  pub set_initial_max_data : ℕ → Config → Config
  pub set_initial_max_stream_data_bidi_local : ℕ → Config → Config
  pub set_initial_max_stream_data_bidi_remote : ℕ → Config → Config
  pub set_initial_max_stream_data_uni : ℕ → Config → Config
  pub set_initial_max_streams_bidi : ℕ → Config → Config
  pub set_initial_max_streams_uni : ℕ → Config → Config
  pub set_disable_active_migration : Bool → Config → Config
  pub enable_early_data : Config → Config
  pub enable_dgram : Bool → ℕ → ℕ → Config → Config

-- The part of a configuration that decides who may connect and what a peer may do.
pub record Settings : Type 0 where
  pub verifies_peer : Bool
  pub cert_chain : Option String
  pub priv_key : Option String
  pub verify_locations : Option String
  pub application_protos : List Bytes
  pub max_idle_timeout : ℕ
  pub max_streams_bidi : ℕ
  pub max_streams_uni : ℕ
  pub active_migration_disabled : Bool
  pub early_data : Bool

-- Documented: a setter sets its own setting. The settings are those of the last calls.
pub record QuicConfigLaws (W Config : Type 0) (q : QuicConfig W Config) : Type 0 where
  pub settings : Config → Settings
  pub settings-verify_peer :
      (b : Bool) (c : Config)
      → settings (q.verify_peer b c) ≡ record (settings c) { verifies_peer = b }
  pub settings-load_cert_chain :
      (f : String) (w : W) (c c' : Config)
      → q.load_cert_chain_from_pem_file f w c ≡ some c'
      → settings c' ≡ record (settings c) { cert_chain = some f }
  pub settings-load_priv_key :
      (f : String) (w : W) (c c' : Config)
      → q.load_priv_key_from_pem_file f w c ≡ some c'
      → settings c' ≡ record (settings c) { priv_key = some f }
  pub settings-load_verify_locations :
      (f : String) (w : W) (c c' : Config)
      → q.load_verify_locations_from_file f w c ≡ some c'
      → settings c' ≡ record (settings c) { verify_locations = some f }
  pub settings-set_application_protos :
      (protos : List Bytes) (c c' : Config)
      → q.set_application_protos protos c ≡ some c'
      → settings c' ≡ record (settings c) { application_protos = protos }
  pub settings-set_max_idle_timeout :
      (n : ℕ) (c : Config)
      → settings (q.set_max_idle_timeout n c) ≡ record (settings c) { max_idle_timeout = n }
  pub settings-set_max_recv_udp_payload_size :
      (n : ℕ) (c : Config) → settings (q.set_max_recv_udp_payload_size n c) ≡ settings c
  pub settings-set_max_send_udp_payload_size :
      (n : ℕ) (c : Config) → settings (q.set_max_send_udp_payload_size n c) ≡ settings c
  pub settings-set_initial_max_data :
      (n : ℕ) (c : Config) → settings (q.set_initial_max_data n c) ≡ settings c
  pub settings-set_initial_max_stream_data_bidi_local :
      (n : ℕ) (c : Config) → settings (q.set_initial_max_stream_data_bidi_local n c) ≡ settings c
  pub settings-set_initial_max_stream_data_bidi_remote :
      (n : ℕ) (c : Config) → settings (q.set_initial_max_stream_data_bidi_remote n c) ≡ settings c
  pub settings-set_initial_max_stream_data_uni :
      (n : ℕ) (c : Config) → settings (q.set_initial_max_stream_data_uni n c) ≡ settings c
  pub settings-set_initial_max_streams_bidi :
      (n : ℕ) (c : Config)
      → settings (q.set_initial_max_streams_bidi n c) ≡ record (settings c) { max_streams_bidi = n }
  pub settings-set_initial_max_streams_uni :
      (n : ℕ) (c : Config)
      → settings (q.set_initial_max_streams_uni n c) ≡ record (settings c) { max_streams_uni = n }
  pub settings-set_disable_active_migration :
      (b : Bool) (c : Config)
      → settings (q.set_disable_active_migration b c)
        ≡ record (settings c) { active_migration_disabled = b }
  pub settings-enable_early_data :
      (c : Config)
      → settings (q.enable_early_data c) ≡ record (settings c) { early_data = Bool.true }
  pub settings-enable_dgram :
      (b : Bool) (m n : ℕ) (c : Config) → settings (q.enable_dgram b m n c) ≡ settings c
