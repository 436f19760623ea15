-- ===== src/Client/Setup.antt =====
-- client/mod.rs, `Connection::new`: the connection that a client opens, before its task runs.
pub mod Opened
use Prim.Native.String.{String}
use mqtt_rust_scion.Prelude.{ℕ, true, false, Option, none, some, if◌then◌else◌, Eq, contains}
use mqtt_rust_scion.Rust.{Bytes, message, foreign}
use mqtt_rust_scion.Rust.Text.{is_empty, trim}
use mqtt_rust_scion.Exec.{Exec, ◌>>=◌, ◌>>◌, pure, throw, gets, ok_or, check}
use mqtt_rust_scion.Extern.ClientCrates.{ClientCrates}
use mqtt_rust_scion.Extern.Quiche.{max_conn_id_len}
use mqtt_rust_scion.Extern.Host.{Host}
use mqtt_rust_scion.Net.Quic.{configure_quic}
use mqtt_rust_scion.Client.Connection.{Connection}

abbrev pub ClientHost : ClientCrates → Type 1
ClientHost x = Host x.World x.ScionAddr x.IsdAsn x.Config

module _ (x : ClientCrates) (h : ClientHost x) where
  instance abbrev isd_asn_eq : Eq x.IsdAsn
  isd_asn_eq = x.isd_asn_eq

  pub record ClientConfig : Type 0 where
    pub bind : Option x.ScionAddr
    pub host : Option String
    pub endhost_api_address : h.Url
    pub snap_token_path : Option h.FilePath
    pub acl_policy : Option h.AclPolicy
    pub ca_cert_path : h.FilePath
    pub cert_path : h.FilePath
    pub key_path : h.FilePath
    pub client_id : String

  -- The builder with the token of the file, if one is configured.
  unfoldable pub authenticate : Option h.FilePath → h.Builder → Exec x.World h.Builder
  authenticate none builder = pure builder
  authenticate (some token_path) builder = do
    files ← gets (λ w. w)
    content ← ok_or (h.read_to_string token_path files) (message "failed to read token file")
    let snap_token = trim content
    if is_empty snap_token
        then throw (message "token file is empty")
        else pure (h.with_auth_token snap_token builder)

  unfoldable pub check_bind : Option x.ScionAddr → h.Stack → Exec x.World (Unit {0})
  check_bind none stack = pure tt
  check_bind (some bind) stack =
      check (contains (h.local_ases stack) (x.isd_asn bind))
        (message "configured bind ISD-AS is not among the local ASes of the SCION stack")

  abbrev pub socket_config : Option h.AclPolicy → h.SocketConfig
  socket_config none = h.new_socket_config
  socket_config (some policy) = h.with_path_policy policy h.new_socket_config

  -- The socket of the client, in the world, and its local address.
  unfoldable pub open_socket : ClientConfig → Exec x.World x.ScionAddr
  open_socket config = do
    builder ← authenticate config.snap_token_path (h.new_builder config.endhost_api_address)
    built ← (λ w. let (stack, w') = h.build builder w in pure stack w')
    stack ← ok_or built foreign
    check_bind config.bind stack
    bound ← (λ w.
        let (addr, w') = h.bind_with_config stack config.bind (socket_config config.acl_policy) w in
        pure addr w')
    ok_or bound foreign

  -- `SystemRandom::new().fill` of a source connection ID. `fill` is the generator of the system.
  abbrev pub random_scid : (ℕ → x.World → Option Bytes × x.World) → Exec x.World Bytes
  random_scid fill w =
      let (scid, w') = fill max_conn_id_len w in ok_or scid (message "failed to generate scid") w'

  -- The connection, with the local address of its socket. The QUIC connection is the last thing that
  -- can fail.
  unfoldable pub new :
      (ℕ → x.World → Option Bytes × x.World)
      → ClientConfig
      → x.ScionAddr
      → x.Notify
      → x.MessageChannel
      → Exec x.World (x.ScionAddr × Connection x)
  new fill config remote connect_notify message_sender = do
    quic_config ← configure_quic h config.ca_cert_path config.cert_path config.key_path
    local_addr ← open_socket config
    scid ← random_scid fill
    local ← ok_or (x.local_address local_addr) (message "failed to get local address")
    peer ← ok_or (x.local_address remote) (message "failed to get remote address")
    quic_conn ← ok_or (x.connect config.host scid local peer quic_config) foreign
    pure (
      local_addr,
      record {
        remote = remote;
        conn = quic_conn;
        mqtt_conn = x.set_auto_pub_response true x.new_mqtt;
        client_id = config.client_id;
        mqtt_init_sent = false;
        connect_notify = connect_notify;
        message_sender = message_sender;
        current_request = none;
      },
    )
