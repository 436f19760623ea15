-- ===== src/Proxy/Setup.antt =====
-- proxy/mod.rs: `Proxy::new`, and `run` with its set-up.
pub mod Listening
pub mod Started
use Prim.Native.String.{String}
use mqtt_rust_scion.Prelude.{
  ℕ, true, false, Option, none, some, List, [], if◌then◌else◌, Eq, contains,
}
use mqtt_rust_scion.Rust.{SocketAddr, message, foreign}
use mqtt_rust_scion.Rust.Text.{is_empty, trim}
use mqtt_rust_scion.Exec.{Exec, ◌>>=◌, ◌>>◌, pure, throw, gets, ok_or, unwrap, check}
use mqtt_rust_scion.Extern.Crates.{Crates}
use mqtt_rust_scion.Extern.Host.{Host}
use mqtt_rust_scion.Net.Quic.{configure_quic}
use mqtt_rust_scion.Proxy.System.{ProxyConfig, Proxy, System}
use mqtt_rust_scion.Proxy.Run.{Event, Bound, main_loop}

abbrev pub main_channel_capacity : ℕ
main_channel_capacity = 10000

-- The host of a proxy: its set-up acts on the world of its tasks.
abbrev pub ProxyHost : Crates → Type 1
ProxyHost x = Host x.World x.ScionAddr x.IsdAsn x.Config

module _ (x : Crates) (h : ProxyHost x) where
  instance abbrev isd_asn_eq : Eq x.IsdAsn
  isd_asn_eq = x.isd_asn_eq

  -- The fields of `ProxyConfig` that only the start reads, with the others.
  pub record StartConfig : Type 0 where
    pub running : ProxyConfig x
    pub open running use *
    pub endhost_api_address : Option h.Url
    pub snap_token_path : Option h.FilePath
    pub acl_policy : Option h.AclPolicy
    pub ca_cert_path : h.FilePath
    pub cert_path : h.FilePath
    pub key_path : h.FilePath

  -- `ring::hmac::Key::generate(…).unwrap()`
  abbrev pub generate_key : (x.World → Option x.Key × x.World) → Exec x.World x.Key
  generate_key generate w = let (key, w') = generate w in unwrap key w'

  -- `generate` stands for the random generator of the system.
  unfoldable pub new : (x.World → Option x.Key × x.World) → StartConfig → Exec x.World (Proxy x)
  new generate config = do
    quic_config ← configure_quic h config.ca_cert_path config.cert_path config.key_path
    token_key ← generate_key generate
    conn_id_seed ← generate_key generate
    pure (record {
      config = config.running;
      quic_config = quic_config;
      token_key = token_key;
      conn_id_seed = conn_id_seed;
      udp_connections = [];
      quic_connections = [];
    })

  -- The builder with the token of the file, if one is configured.
  unfoldable pub authenticate : Option h.FilePath → h.Builder → Exec x.World h.Builder
  authenticate none builder = pure builder
  authenticate (some token_path) builder = do
    files ← gets (λ w. w)
    content ← ok_or (h.read_to_string token_path files) (message "failed to read token file")
    let snap_token = trim content
    if is_empty snap_token
        then throw (message "token file is empty")
        else pure (h.with_auth_token snap_token builder)

  abbrev pub socket_config : Option h.AclPolicy → h.SocketConfig
  socket_config none = h.new_socket_config
  socket_config (some policy) = h.with_path_policy policy h.new_socket_config

  unfoldable pub set_up : StartConfig → Exec x.World (Bound x.ScionAddr x.Channel)
  set_up config = do
    tx_quic_to_udp ← (λ w. let (channel, w') = x.channel main_channel_capacity w in pure channel w')
    endhost_api_url ←
        ok_or config.endhost_api_address
          (message "endhost API address must be provided when using SCION (with --endhost-api)")
    builder ← authenticate config.snap_token_path (h.new_builder endhost_api_url)
    built ← (λ w. let (stack, w') = h.build builder w in pure stack w')
    stack ← ok_or built (message "error building proxy SCION stack")
    check (contains (h.local_ases stack) (x.isd_asn config.listen))
        (message "configured listen ISD-AS is not among the local ASes of the SCION stack")
    bound ← (λ w.
        let (addr, w') =
          h.bind_with_config stack (some config.listen) (socket_config config.acl_policy) w in
        pure addr w')
    local_scion_addr ← ok_or bound foreign
    local_addr ← ok_or (x.local_address local_scion_addr) (message "invalid local address")
    pure (record {
      local_addr = local_addr;
      local_scion_addr = local_scion_addr;
      tx_quic_to_udp = tx_quic_to_udp;
    })

  -- A body on the world, run by the main task.
  abbrev pub in_world : {B : Type 0} → Exec x.World B → Exec (System x) B
  in_world body s = let (outcome, w) = body s.world in (outcome, record s { world = w })

  -- `run` of a proxy that was made with the configuration `config`.
  unfoldable pub run : StartConfig → List (Event x.ScionAddr) → Exec (System x) (Unit {0})
  run config events = do bound ← in_world (set_up config); main_loop x bound events
