-- ===== src/Extern/Quiche.antt =====
-- `quiche`: packet headers, stateless answers, and the state machine of one connection.
use Prim.Native.String.{String}
use mqtt_rust_scion.Prelude.{ℕ, ◌<◌, ◌≤◌, ◌≡◌, Bool, Option, none, some, List}
use mqtt_rust_scion.Rust.{Bytes, SocketAddr}

-- `quiche::Type`
pub data PacketType : Type 0 where
  initial retry handshake zero_rtt version_negotiation short : PacketType

-- `quiche::Header`; a connection ID is its bytes.
pub record Header : Type 0 where
  pub ty : PacketType
  pub version : ℕ
  pub dcid : Bytes
  pub scid : Bytes
  pub token : Option Bytes

-- `quiche::MAX_CONN_ID_LEN`
abbrev pub max_conn_id_len : ℕ
max_conn_id_len = 20

-- `quiche::RecvInfo`
pub record RecvInfo : Type 0 where
  pub from : SocketAddr
  pub to : SocketAddr

-- What `Connection::send` returns: a packet with its addresses, `Err(Done)`, or another error.
pub data Sent : Type 0 where
  packet : Bytes → SocketAddr → SocketAddr → Sent
  finished : Sent
  failed : Sent

-- Calls that fill a buffer take its length, and return what they wrote or `none` for an error. A
-- `Bool` is whether a call returned `Ok`.
pub record Quiche : Type 1 where
  pub Config : Type 0
  pub Conn : Type 0
  pub from_slice : Bytes → ℕ → Option Header
  pub version_is_supported : ℕ → Bool
  pub negotiate_version : Bytes → Bytes → ℕ → Option Bytes
  pub retry_packet : Bytes → Bytes → Bytes → Bytes → ℕ → ℕ → Option Bytes
  pub accept : Bytes → Option Bytes → SocketAddr → SocketAddr → Config → Option Conn × Config
  -- the name to verify, the source connection ID, the local and the peer address
  pub connect : Option String → Bytes → SocketAddr → SocketAddr → Config → Option Conn
  pub recv : Bytes → RecvInfo → Conn → Bool × Conn
  pub send : ℕ → Conn → Sent × Conn
  pub timeout : Conn → Option ℕ
  pub on_timeout : Conn → Conn
  pub is_established : Conn → Bool
  pub is_closed : Conn → Bool
  pub has_peer_cert : Conn → Bool
  pub send_ack_eliciting : Conn → Bool × Conn
  pub readable : Conn → List ℕ
  pub stream_recv : ℕ → ℕ → Conn → Option Bytes × Conn
  -- `Ok(n)` is `some n`: the first n bytes were taken
  pub stream_send : ℕ → Bytes → Conn → Option ℕ × Conn
  -- the application error code and the reason
  pub close : ℕ → Bytes → Conn → Bool × Conn

-- Documented: a call that returns data takes it out of the connection. So what is left falls: of the
-- streams with each chunk that is read, and of what waits to be sent with each packet.
pub record QuicheLaws (q : Quiche) : Type 0 where
  pub unread : q.Conn → ℕ
  pub unread-stream_recv :
      (id n : ℕ) (c : q.Conn) (bytes : Bytes)
      → (q.stream_recv id n c).0 ≡ some bytes
      → unread (q.stream_recv id n c).1 < unread c
  pub unread-stream_recv_none :
      (id n : ℕ) (c : q.Conn)
      → (q.stream_recv id n c).0 ≡ none
      → unread (q.stream_recv id n c).1 ≤ unread c
  pub unread-stream_send :
      (id : ℕ) (bytes : Bytes) (c : q.Conn) → unread (q.stream_send id bytes c).1 ≤ unread c
  pub unsent : q.Conn → ℕ
  pub unsent-send :
      (n : ℕ) (c : q.Conn) (bytes : Bytes) (from to : SocketAddr)
      → (q.send n c).0 ≡ packet bytes from to
      → unsent (q.send n c).1 < unsent c
