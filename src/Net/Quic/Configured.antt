-- ===== src/Net/Quic/Configured.antt =====
-- net/quic.rs: what a configuration allows, and when there is one.
use Prim.Native.String.{String}
use mqtt_rust_scion.Prelude.{◌≡◌, true, some, arith}
use mqtt_rust_scion.Rust.{ok, foreign}
use mqtt_rust_scion.Exec.{ok_or->>=}
use mqtt_rust_scion.Extern.QuicConfig.{Settings, QuicConfigLaws}
use mqtt_rust_scion.Extern.Host.{Host}
use mqtt_rust_scion.Net.Quic.{default_timeout, protocol, set_limits, configure_quic}

module _ {W A I Config : Type 0} (x : Host W A I Config) where
  module _ (laws : QuicConfigLaws W Config x.quic_config) where
    set_limits-settings :
        (c : Config)
        → laws.settings (set_limits x c) ≡ record (laws.settings c) {
          max_idle_timeout = default_timeout;
          max_streams_bidi = 1;
          max_streams_uni = 1;
          active_migration_disabled = true;
          early_data = true;
        }
    unfolding set_limits
    set_limits-settings c = simp (
      laws.settings-set_max_idle_timeout, laws.settings-set_max_recv_udp_payload_size,
      laws.settings-set_max_send_udp_payload_size, laws.settings-set_initial_max_data,
      laws.settings-set_initial_max_stream_data_bidi_local,
      laws.settings-set_initial_max_stream_data_bidi_remote,
      laws.settings-set_initial_max_stream_data_uni, laws.settings-set_initial_max_streams_bidi,
      laws.settings-set_initial_max_streams_uni, laws.settings-set_disable_active_migration,
      laws.settings-enable_early_data, laws.settings-enable_dgram,
    )

    -- What the configuration comes to, by the files that were loaded into it.
    abbrev pub mutual_tls : String → String → String → Settings
    mutual_tls ca_cert cert key = record {
      verifies_peer = true;
      cert_chain = some cert;
      priv_key = some key;
      verify_locations = some ca_cert;
      application_protos = protocol;
      max_idle_timeout = default_timeout;
      max_streams_bidi = 1;
      max_streams_uni = 1;
      active_migration_disabled = true;
      early_data = true;
    }

    -- A configuration that `configure_quic` returns comes to `mutual_tls` of the three paths: the peer is
    -- verified against the authority of the first, with the own certificate and key of the others, one
    -- stream of each kind, and no active migration.
    pub configure_quic-settings :
        (ca_cert_path cert_path key_path : x.FilePath) (w : W) (c : Config)
        → (configure_quic x ca_cert_path cert_path key_path w).0 ≡ ok c
        → (ca_cert : String) × (cert : String) × (key : String) × (x.to_str ca_cert_path
            ≡ some ca_cert)
          × (x.to_str cert_path ≡ some cert)
          × (x.to_str key_path ≡ some key)
          × (laws.settings c ≡ mutual_tls ca_cert cert key)
    unfolding configure_quic
    configure_quic-settings ca_cert_path cert_path key_path w c h =
        let (config, new, h0) = ok_or->>= (x.new_config x.protocol_version) foreign _ w h in
        let (cert, cert_ok, h1) = ok_or->>= (x.to_str cert_path) _ _ w h0 in
        let (with_cert, cert_in, h2) =
          ok_or->>= (x.load_cert_chain_from_pem_file cert w (x.verify_peer true config)) foreign _ w
            h1 in
        let (key, key_ok, h3) = ok_or->>= (x.to_str key_path) _ _ w h2 in
        let (with_key, key_in, h4) =
          ok_or->>= (x.load_priv_key_from_pem_file key w with_cert) foreign _ w h3 in
        let (ca_cert, ca_ok, h5) = ok_or->>= (x.to_str ca_cert_path) _ _ w h4 in
        let (with_ca, ca_in, h6) =
          ok_or->>= (x.load_verify_locations_from_file ca_cert w with_key) foreign _ w h5 in
        let (with_protos, protos_in, h7) =
          ok_or->>= (x.set_application_protos protocol with_ca) foreign _ w h6 in
        (
          ca_cert,
          cert,
          key,
          ca_ok,
          cert_ok,
          key_ok,
          ground (
            arith,
            set_limits-settings with_protos,
            laws.settings-set_application_protos protocol with_ca with_protos,
            laws.settings-load_verify_locations ca_cert w with_key with_ca,
            laws.settings-load_priv_key key w with_cert with_key,
            laws.settings-load_cert_chain cert w (x.verify_peer true config) with_cert,
            laws.settings-verify_peer true config,
          ),
        )
