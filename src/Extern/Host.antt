-- ===== src/Extern/Host.antt =====
-- What the set-up of the programs calls: files, the SCION stack of `scion_stack`, and the builder of
-- the QUIC configuration.
use Prim.Native.String.{String}
use mqtt_rust_scion.Prelude.{Option, List}
use mqtt_rust_scion.Extern.QuicConfig.{QuicConfig}

-- `W` is the world, `A` the type of SCION addresses, `I` that of ISD-AS numbers and `Config` that of
-- QUIC configurations. The socket that is bound is in the world.
pub record Host (W A I Config : Type 0) : Type 1 where
  -- `std::path::PathBuf`; `to_str` is `none` for a path that is not UTF-8
  pub FilePath : Type 0
  pub to_str : FilePath → Option String
  -- `none` is an error of the read
  pub read_to_string : FilePath → W → Option String
  pub Url : Type 0
  pub AclPolicy : Type 0
  -- `ScionStackBuilder`, `ScionStack` and `SocketConfig`
  pub Builder : Type 0
  pub new_builder : Url → Builder
  pub with_auth_token : String → Builder → Builder
  pub Stack : Type 0
  pub build : Builder → W → Option Stack × W
  pub local_ases : Stack → List I
  pub SocketConfig : Type 0
  pub new_socket_config : SocketConfig
  pub with_path_policy : AclPolicy → SocketConfig → SocketConfig
  -- the local address of the socket, or `none` for an error
  pub bind_with_config : Stack → Option A → SocketConfig → W → Option A × W
  pub quic_config : QuicConfig W Config
  pub open quic_config use *
