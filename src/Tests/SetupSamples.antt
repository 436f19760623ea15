-- ===== src/Tests/SetupSamples.antt =====
-- A small concrete host, for the set-up of the programs.
use Prim.Native.String.{String}
use mqtt_rust_scion.Prelude.{ℕ, refl, true, none, some, List, [], ◌∷◌, Option, ◌≡◌}
use mqtt_rust_scion.Extern.QuicConfig.{QuicConfig, Settings, QuicConfigLaws}
use mqtt_rust_scion.Extern.Host.{Host}
use mqtt_rust_scion.Tests.Samples.{toy_settings}

pub some_injective : {c d : Settings} → ◌≡◌ {A = Option Settings} (some c) (some d) → d ≡ c
some_injective e = cc

module _ (W : Type 0) where
  abbrev pub toy_quic_config : QuicConfig W Settings
  toy_quic_config = record {
    protocol_version = 1;
    new_config = λ v. some toy_settings;
    verify_peer = λ b c. record c { verifies_peer = b };
    load_cert_chain_from_pem_file = λ f w c. some (record c { cert_chain = some f });
    load_priv_key_from_pem_file = λ f w c. some (record c { priv_key = some f });
    load_verify_locations_from_file = λ f w c. some (record c { verify_locations = some f });
    set_application_protos = λ protos c. some (record c { application_protos = protos });
    set_max_idle_timeout = λ n c. record c { max_idle_timeout = n };
    set_max_recv_udp_payload_size = λ n c. c;
    set_max_send_udp_payload_size = λ n c. c;
    set_initial_max_data = λ n c. c;
    set_initial_max_stream_data_bidi_local = λ n c. c;
    set_initial_max_stream_data_bidi_remote = λ n c. c;
    set_initial_max_stream_data_uni = λ n c. c;
    set_initial_max_streams_bidi = λ n c. record c { max_streams_bidi = n };
    set_initial_max_streams_uni = λ n c. record c { max_streams_uni = n };
    set_disable_active_migration = λ b c. record c { active_migration_disabled = b };
    enable_early_data = λ c. record c { early_data = true };
    enable_dgram = λ b m n c. c;
  }

  abbrev pub toy_quic_config-laws : QuicConfigLaws W Settings toy_quic_config
  toy_quic_config-laws = record {
    settings = λ c. c;
    settings-verify_peer = λ b c. refl;
    settings-load_cert_chain = λ f w c c' e. some_injective e;
    settings-load_priv_key = λ f w c c' e. some_injective e;
    settings-load_verify_locations = λ f w c c' e. some_injective e;
    settings-set_application_protos = λ protos c c' e. some_injective e;
    settings-set_max_idle_timeout = λ n c. refl;
    settings-set_max_recv_udp_payload_size = λ n c. refl;
    settings-set_max_send_udp_payload_size = λ n c. refl;
    settings-set_initial_max_data = λ n c. refl;
    settings-set_initial_max_stream_data_bidi_local = λ n c. refl;
    settings-set_initial_max_stream_data_bidi_remote = λ n c. refl;
    settings-set_initial_max_stream_data_uni = λ n c. refl;
    settings-set_initial_max_streams_bidi = λ n c. refl;
    settings-set_initial_max_streams_uni = λ n c. refl;
    settings-set_disable_active_migration = λ b c. refl;
    settings-enable_early_data = λ c. refl;
    settings-enable_dgram = λ b m n c. refl;
  }

  -- Every path has a file, which holds a token.
  abbrev pub toy_host : Host W ℕ ℕ Settings
  toy_host = record {
    FilePath = String;
    to_str = some;
    read_to_string = λ path w. some " abc ";
    Url = String;
    AclPolicy = ℕ;
    Builder = List String;
    new_builder = λ url. url ∷ [];
    with_auth_token = λ token builder. token ∷ builder;
    Stack = List String;
    build = λ builder w. (some builder, w);
    local_ases = λ stack. 2 ∷ 1 ∷ [];
    SocketConfig = Option ℕ;
    new_socket_config = none;
    with_path_policy = λ policy config. some policy;
    bind_with_config = λ stack bind config w. (elim bind [ none ↦ some 6 | some a ↦ some a ], w);
    quic_config = toy_quic_config;
  }
