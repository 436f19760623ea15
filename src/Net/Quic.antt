-- ===== src/Net/Quic.antt =====
-- net/quic.rs, `configure_quic`: the configuration that the proxy and the client give to quiche.
pub mod Configured
use mqtt_rust_scion.Prelude.{ℕ, true, List, [], ◌∷◌}
use mqtt_rust_scion.Rust.{Bytes, ascii, message, foreign}
use mqtt_rust_scion.Exec.{Exec, ◌>>=◌, pure, gets, ok_or}
use mqtt_rust_scion.Net.{max_datagram_size}
use mqtt_rust_scion.Extern.Host.{Host}

-- in milliseconds
abbrev pub default_timeout : ℕ
default_timeout = 30000

abbrev pub protocol : List Bytes
protocol = ascii "mqtt" ∷ []

module _ {W A I Config : Type 0} (x : Host W A I Config) where
  -- The setters, which cannot fail but for the first.
  unfoldable pub set_limits : Config → Config
  set_limits config0 =
      let config1 = x.set_max_idle_timeout default_timeout config0 in
      let config2 = x.set_max_recv_udp_payload_size max_datagram_size config1 in
      let config3 = x.set_max_send_udp_payload_size max_datagram_size config2 in
      let config4 = x.set_initial_max_data 10_000_000 config3 in
      let config5 = x.set_initial_max_stream_data_bidi_local 1_000_000 config4 in
      let config6 = x.set_initial_max_stream_data_bidi_remote 1_000_000 config5 in
      let config7 = x.set_initial_max_stream_data_uni 1_000_000 config6 in
      let config8 = x.set_initial_max_streams_bidi 1 config7 in
      let config9 = x.set_initial_max_streams_uni 1 config8 in
      x.enable_dgram true 1000 200
        (x.enable_early_data (x.set_disable_active_migration true config9))

  unfoldable pub configure_quic : x.FilePath → x.FilePath → x.FilePath → Exec W Config
  configure_quic ca_cert_path cert_path key_path = do
    config ← ok_or (x.new_config x.protocol_version) foreign
    files ← gets (λ w. w)
    cert ← ok_or (x.to_str cert_path) (message "Invalid certificate path")
    with_cert ←
        ok_or (x.load_cert_chain_from_pem_file cert files (x.verify_peer true config)) foreign
    key ← ok_or (x.to_str key_path) (message "Invalid key path")
    with_key ← ok_or (x.load_priv_key_from_pem_file key files with_cert) foreign
    ca_cert ← ok_or (x.to_str ca_cert_path) (message "Invalid CA certificate path")
    with_ca ← ok_or (x.load_verify_locations_from_file ca_cert files with_key) foreign
    with_protos ← ok_or (x.set_application_protos protocol with_ca) foreign
    pure (set_limits with_protos)
