-- ===== src/Proxy/System.antt =====
-- The state of the proxy, proxy/mod.rs: its configuration, its keys and its two tables, with the
-- tasks that it has spawned and the world that they share.
use Prim.Native.String.{String}
use text.Mathlib.Text.{◌==◌ as str_eq}
use mqtt_rust_scion.Prelude.{ℕ, Option, none, some, List, if◌then◌else◌}
use mqtt_rust_scion.Prelude.Maps.{HashMap}
use mqtt_rust_scion.Rust.{Bytes, SocketAddr, Run, done, panic}
use mqtt_rust_scion.Exec.{Exec, pure, crash}
use mqtt_rust_scion.Extern.Crates.{Crates}
use mqtt_rust_scion.Proxy.QuicConnection
use mqtt_rust_scion.Proxy.UdpConnection

pub data Mode : Type 0 where
  quic_endpoint udp_endpoint : Mode

-- `none` is the error `invalid mode`.
unfoldable pub from_str : String → Option Mode
from_str s =
    if str_eq s "QuicEndpoint"
    then some quic_endpoint
    else if str_eq s "UdpEndpoint"
    then some udp_endpoint
    else none

abbrev pub client_channel_capacity : ℕ
client_channel_capacity = 200

module _ (x : Crates) where
  pub record ConnectionInfo : Type 0 where
    pub sender : x.Channel
    pub cancel_token : x.CancelToken

  -- The part of the configuration that is read after the start.
  pub record ProxyConfig : Type 0 where
    pub listen : x.ScionAddr
    pub mode : Mode
    pub mqtt_broker_address : SocketAddr

  pub record Proxy : Type 0 where
    pub config : ProxyConfig
    pub quic_config : x.Config
    pub token_key : x.Key
    pub conn_id_seed : x.Key
    pub udp_connections : HashMap x.ScionAddr ConnectionInfo
    pub quic_connections : HashMap Bytes ConnectionInfo

  -- A task stands in its list from `tokio::spawn` until it has removed its table entry.
  pub record System : Type 0 where
    pub proxy : Proxy
    pub open proxy use *
    pub quic_tasks : List (Bytes × QuicConnection.Connection x)
    pub udp_tasks : List (x.ScionAddr × UdpConnection.Connection x)
    pub world : x.World

  abbrev pub on_world : {A : Type 0} → (x.World → A × x.World) → Exec System A
  on_world f s = let (a, w) = f s.world in pure a (record s { world = w })

-- A pure function that may panic, called in a body.
abbrev pub lift {ℓ} : {S A : Type ℓ} → Run A → Exec S A
lift (done a) = pure a
lift panic = crash
