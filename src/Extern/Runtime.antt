-- ===== src/Extern/Runtime.antt =====
-- `tokio`, the SCION socket of `scion_stack`, and the clock: what a task does to the world outside
-- it. Handles stand for the shared objects; the world holds their contents.
use mqtt_rust_scion.Prelude.{ℕ, ◌≡◌, Bool, true, Option, List, [], ◌∷◌, ◌++◌}
use mqtt_rust_scion.Rust.{Bytes, SocketAddr}

-- `Result<(), TrySendError<T>>`
pub data TrySend : Type 0 where
  sent full closed : TrySend

-- What `TcpStream::try_read` returns.
pub data TryRead : Type 0 where
  eof : TryRead
  received : Bytes → TryRead
  would_block : TryRead
  failed : TryRead

-- `A` is the type of SCION addresses, `P` that of the messages of the channels.
pub record Runtime (A P : Type 0) : Type 1 where
  pub World : Type 0
  -- `mpsc::channel`: its two ends have one handle
  pub Channel : Type 0
  pub channel : ℕ → World → Channel × World
  pub try_send : Channel → P → World → TrySend × World
  -- `send(p).await`: `false` if the receiver is gone
  pub send_wait : Channel → P → World → Bool × World
  pub CancelToken : Type 0
  pub new_token : World → CancelToken × World
  pub cancel : CancelToken → World → World
  pub TcpStream : Type 0
  pub tcp_connect : SocketAddr → World → Option TcpStream × World
  pub write_all : TcpStream → Bytes → World → Bool × World
  pub try_read : TcpStream → ℕ → World → TryRead × World
  pub UdpSocket : Type 0
  pub udp_bind : World → Option UdpSocket × World
  pub udp_send_to : UdpSocket → Bytes → SocketAddr → World → Bool × World
  pub scion_send_to : Bytes → A → World → Bool × World
  -- `Instant::now()`, in nanoseconds
  pub now : World → ℕ

-- Documented: where `write_all` returns `Ok`, the whole buffer was written, after what was written
-- before.
pub record StreamLaws {A P : Type 0} (r : Runtime A P) : Type 0 where
  pub written : r.TcpStream → r.World → Bytes
  pub written-write_all :
      (s : r.TcpStream) (bytes : Bytes) (w : r.World)
      → (r.write_all s bytes w).0 ≡ true
      → written s (r.write_all s bytes w).1 ≡ written s w ++ bytes

-- Documented: where `send` returns `Ok`, the value stands in the channel after those that were sent
-- before. `sent_to` is all that was ever put in a channel.
pub record ChannelLaws {A P : Type 0} (r : Runtime A P) : Type 0 where
  pub sent_to : r.Channel → r.World → List P
  pub sent_to-send_wait :
      (c : r.Channel) (p : P) (w : r.World)
      → (r.send_wait c p w).0 ≡ true
      → sent_to c (r.send_wait c p w).1 ≡ sent_to c w ++ p ∷ []
