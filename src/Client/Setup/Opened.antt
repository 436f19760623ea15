-- ===== src/Client/Setup/Opened.antt =====
-- client/mod.rs, `Connection::new`: what has been done when there is a connection.
use Prim.Native.String.{String}
use mqtt_rust_scion.Prelude.{
  ℕ, ◌≡◌, refl, subst, false, Option, none, some, List, ◌∷◌, ◌++◌, contains, contains-split, Eq,
}
use mqtt_rust_scion.Rust.{Bytes, SocketAddr, ok, foreign}
use mqtt_rust_scion.Exec.{Exec, ◌>>=◌, >>=-ok, ok_or->>=, check->>, ok_or-ok, pure-ok}
use mqtt_rust_scion.Extern.QuicConfig.{QuicConfigLaws}
use mqtt_rust_scion.Extern.ClientCrates.{ClientCrates}
use mqtt_rust_scion.Net.Quic.{configure_quic}
use mqtt_rust_scion.Net.Quic.Configured.{mutual_tls, configure_quic-settings}
use mqtt_rust_scion.Client.Connection.{Connection}
use mqtt_rust_scion.Client.Setup.{
  ClientHost, ClientConfig, authenticate, check_bind, socket_config, open_socket, random_scid, new,
}

module _ (x : ClientCrates) (h : ClientHost x) where
  instance abbrev isd_asn_eq : Eq x.IsdAsn
  isd_asn_eq = x.isd_asn_eq

  -- The ISD-AS of a bind address, where there is one, is one of the local ASes.
  abbrev pub IsLocal : Option x.ScionAddr → List x.IsdAsn → Type 0
  IsLocal none local_ases = Unit
  IsLocal (some bind) local_ases =
      (pre : List x.IsdAsn) × (post : List x.IsdAsn) × (local_ases ≡ pre ++ x.isd_asn bind ∷ post)

  check_bind->> :
      {B : Type 0} {b : B} (bind : Option x.ScionAddr) (stack : h.Stack) (rest : Exec x.World B)
      (w : x.World)
      → ((check_bind x h bind stack >>= λ _. rest) w).0 ≡ ok b
      → IsLocal bind (h.local_ases stack) × ((rest w).0 ≡ ok b)
  unfolding check_bind
  check_bind->> none stack rest w e = (tt, e)
  check_bind->> (some bind) stack rest w e =
      let (listed, e1) = check->> (contains (h.local_ases stack) (x.isd_asn bind)) _ rest w e in
      (contains-split (h.local_ases stack) (x.isd_asn bind) listed, e1)

  -- The socket that a client bound: of a stack that was built, for the configured bind address, if
  -- there is one, whose ISD-AS is then one of the local ASes, and under the configured policy.
  pub record Bound (config : ClientConfig x h) (w : x.World) (local_addr : x.ScionAddr)
      : Type 0 where
    pub builder : h.Builder
    pub before : x.World
    pub authenticated :
        (authenticate x h config.snap_token_path (h.new_builder config.endhost_api_address) w).0
        ≡ ok builder
    pub stack : h.Stack
    pub built : (h.build builder before).0 ≡ some stack
    pub is_local : IsLocal config.bind (h.local_ases stack)
    pub bound :
        (h.bind_with_config stack config.bind
          (socket_config x h config.acl_policy)
          (h.build builder before).1).0
        ≡ some local_addr

  open_socket-Bound :
      (config : ClientConfig x h) (w : x.World) (local_addr : x.ScionAddr)
      → (open_socket x h config w).0 ≡ ok local_addr
      → Bound config w local_addr
  unfolding open_socket
  open_socket-Bound config w local_addr e =
      let (builder, authenticated, _, e1) =
        >>=-ok (authenticate x h config.snap_token_path (h.new_builder config.endhost_api_address))
          _ w e in
      let w1 =
        (authenticate x h config.snap_token_path (h.new_builder config.endhost_api_address) w).1 in
      let (built, w2) = h.build builder w1 in
      let (stack, built_ok, e2) = ok_or->>= built _ _ w2 e1 in
      let (is_local, e3) = check_bind->> config.bind stack _ w2 e2 in
      let (addr, _) =
        h.bind_with_config stack config.bind (socket_config x h config.acl_policy) w2 in
      record {
        builder = builder;
        before = w1;
        authenticated = authenticated;
        stack = stack;
        built = built_ok;
        is_local = is_local;
        bound = ok_or-ok addr foreign w2 e3;
      }

  -- A new connection of the configuration `config` to `remote`.
  pub record Opened (laws : QuicConfigLaws x.World x.Config h.quic_config)
      (config : ClientConfig x h) (remote : x.ScionAddr) (connect_notify : x.Notify)
      (message_sender : x.MessageChannel) (w : x.World) (local_addr : x.ScionAddr)
      (c : Connection x) : Type 0 where
    pub bound : Bound config w local_addr
    -- The QUIC connection is to the host of the configuration, under mutual TLS with its three files.
    pub quic_config : x.Config
    pub ca_cert : String
    pub cert : String
    pub key : String
    pub has_ca_cert : h.to_str config.ca_cert_path ≡ some ca_cert
    pub has_cert : h.to_str config.cert_path ≡ some cert
    pub has_key : h.to_str config.key_path ≡ some key
    pub settings : laws.settings quic_config ≡ mutual_tls h laws ca_cert cert key
    pub scid : Bytes
    pub local : SocketAddr
    pub peer : SocketAddr
    pub is_local : x.local_address local_addr ≡ some local
    pub is_peer : x.local_address remote ≡ some peer
    pub connected : x.connect config.host scid local peer quic_config ≡ some c.conn
    -- No CONNECT has been sent, and no request is pending.
    pub same_remote : c.remote ≡ remote
    pub same_id : c.client_id ≡ config.client_id
    pub unsent : c.mqtt_init_sent ≡ false
    pub idle : c.current_request ≡ none
    pub same_notify : c.connect_notify ≡ connect_notify
    pub same_sender : c.message_sender ≡ message_sender

  module _ (laws : QuicConfigLaws x.World x.Config h.quic_config) where
    pub new-Opened :
        (fill : ℕ → x.World → Option Bytes × x.World) (config : ClientConfig x h)
        (remote : x.ScionAddr) (n : x.Notify) (sender : x.MessageChannel) (w : x.World)
        (local_addr : x.ScionAddr) (c : Connection x)
        → (new x h fill config remote n sender w).0 ≡ ok (local_addr, c)
        → Opened laws config remote n sender
            (configure_quic h config.ca_cert_path config.cert_path config.key_path w).1
            local_addr
            c
    unfolding new
    new-Opened fill config remote n sender w local_addr c e =
        let (quic_config, configured, _, e1) =
          >>=-ok (configure_quic h config.ca_cert_path config.cert_path config.key_path) _ w e in
        let (ca_cert, cert, key, has_ca_cert, has_cert, has_key, settings) =
          configure_quic-settings h laws config.ca_cert_path config.cert_path config.key_path w
            quic_config configured in
        let w1 = (configure_quic h config.ca_cert_path config.cert_path config.key_path w).1 in
        let (addr, opened, _, e2) = >>=-ok (open_socket x h config) _ w1 e1 in
        let w2 = (open_socket x h config w1).1 in
        let (scid, _, _, e3) = >>=-ok (random_scid x h fill) _ w2 e2 in
        let w3 = (random_scid x h fill w2).1 in
        let (local, is_local, e4) = ok_or->>= (x.local_address addr) _ _ w3 e3 in
        let (peer, is_peer, e5) = ok_or->>= (x.local_address remote) _ _ w3 e4 in
        let (conn, connected, e6) =
          ok_or->>= (x.connect config.host scid local peer quic_config) foreign _ w3 e5 in
        let same = pure-ok _ w3 e6 in
        subst (λ r. Opened laws config remote n sender w1 r.0 r.1) same
          (record {
            bound = open_socket-Bound config w1 addr opened;
            quic_config = quic_config;
            ca_cert = ca_cert;
            cert = cert;
            key = key;
            has_ca_cert = has_ca_cert;
            has_cert = has_cert;
            has_key = has_key;
            settings = settings;
            scid = scid;
            local = local;
            peer = peer;
            is_local = is_local;
            is_peer = is_peer;
            connected = connected;
            same_remote = refl;
            same_id = refl;
            unsent = refl;
            idle = refl;
            same_notify = refl;
            same_sender = refl;
          })
