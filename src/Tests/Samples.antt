-- ===== src/Tests/Samples.antt =====
-- Small concrete crates, on which the examples run.
use mqtt_rust_scion.Prelude.{
  ℕ, zero, suc, ◌+◌, ◌≡◌, refl, Bool, true, false, not, Option, none, some, List, [], ◌∷◌, ◌++◌,
  length, take, drop, replicate, if◌then◌else◌, ◌==◌, nat_eq, list_eq, arith, beq_refl, append-nil,
  append_assoc, ap, sym, ◌∙◌, ◌<◌, ◌≤◌,
}
use mqtt_rust_scion.Rust.{Bytes, v4, SocketAddr}
use mqtt_rust_scion.Net.{UdpPacket}
use mqtt_rust_scion.Extern.Ring.{Hmac, HmacLaws}
use mqtt_rust_scion.Extern.Scion.{ScionProto}
use mqtt_rust_scion.Extern.Quiche.{
  initial, short, Header, Sent, packet, finished, Quiche, QuicheLaws,
}
use mqtt_rust_scion.Extern.QuicConfig.{Settings}
use mqtt_rust_scion.Extern.Runtime.{sent, received, Runtime, StreamLaws, ChannelLaws}
use mqtt_rust_scion.Extern.Crates.{Crates}

abbrev sum : Bytes → ℕ
sum [] = 0
sum (b ∷ bs) = b + sum bs

-- The "tag" is the sum of the key and the bytes, and 31 zeros.
abbrev pub toy_sign : ℕ → Bytes → Bytes
toy_sign key bytes = (key + sum bytes) ∷ replicate 31 0

abbrev pub toy_hmac : Hmac
toy_hmac = record { Key = ℕ; sign = toy_sign; verify = λ key bytes tag. tag == toy_sign key bytes }

pub toy_hmac-laws : HmacLaws toy_hmac
toy_hmac-laws = record {
  length-sign = λ key bytes. refl;
  verify-sign = λ key bytes. beq_refl (toy_sign key bytes);
}

abbrev pub ip_of : ℕ → SocketAddr
ip_of n = record { ip = v4 (10 ∷ 0 ∷ 0 ∷ n ∷ []); port = 4433 }

-- Address 0 is a service address.
abbrev ip_of? : ℕ → Option SocketAddr
ip_of? zero = none
ip_of? (suc n) = some (ip_of (suc n))

abbrev pub toy_scion : ScionProto
toy_scion = record {
  ScionAddr = ℕ;
  addr_eq = nat_eq;
  IsdAsn = ℕ;
  isd_asn_eq = nat_eq;
  isd_asn = λ a. 1;
  local_address = ip_of?;
  from_std = λ ia a. a.port;
}

-- A datagram: the packet type (0 is Initial), the version, 20 bytes of ID, and the token.
abbrev pub toy_header : Bytes → Option Header
toy_header (ty ∷ version ∷ rest) = some (record {
  ty = if ty == 0 then initial else short;
  version = version;
  dcid = take 20 rest;
  scid = [];
  token = some (drop 20 rest);
})
toy_header _ = none

pub record ToyConn : Type 0 where
  pub established : Bool
  pub shut : Bool
  pub cert : Bool
  pub outbox : List Bytes
  pub inbox : List Bytes
  pub taken : Bytes

abbrev pub new_conn : ToyConn
new_conn = record {
  established = true;
  shut = false;
  cert = true;
  outbox = [];
  inbox = [];
  taken = [];
}

abbrev pop_out : List Bytes → ToyConn → Sent × ToyConn
pop_out [] c = (finished, c)
pop_out (b ∷ bs) c = (packet b (ip_of 1) (ip_of 2), record c { outbox = bs })

abbrev pop_in : List Bytes → ToyConn → Option Bytes × ToyConn
pop_in [] c = (none, c)
pop_in (b ∷ bs) c = (some b, record c { inbox = bs })

-- It takes at most 4 bytes of a write.
abbrev toy_stream_send : ℕ → Bytes → ToyConn → Option ℕ × ToyConn
toy_stream_send id bytes c =
    let n = length (take 4 bytes) in (some n, record c { taken = c.taken ++ take 4 bytes })

-- A configuration is its settings.
abbrev pub toy_settings : Settings
toy_settings = record {
  verifies_peer = false;
  cert_chain = none;
  priv_key = none;
  verify_locations = none;
  application_protos = [];
  max_idle_timeout = 0;
  max_streams_bidi = 0;
  max_streams_uni = 0;
  active_migration_disabled = false;
  early_data = false;
}

abbrev pub toy_quiche : Quiche
toy_quiche = record {
  Config = Settings;
  Conn = ToyConn;
  from_slice = λ bytes n. toy_header bytes;
  version_is_supported = λ v. v == 1;
  negotiate_version = λ scid dcid n. some [];
  retry_packet = λ scid dcid new_scid token version n. some (0 ∷ 1 ∷ (new_scid ++ token));
  accept = λ scid odcid local peer config. (some new_conn, config);
  connect = λ host scid local peer config. some new_conn;
  recv = λ bytes info c. (not c.shut, record c { inbox = c.inbox ++ bytes ∷ [] });
  send = λ n c. pop_out c.outbox c;
  timeout = λ c. none;
  on_timeout = λ c. c;
  is_established = λ c. c.established;
  is_closed = λ c. false;
  has_peer_cert = λ c. c.cert;
  send_ack_eliciting = λ c. (true, c);
  readable = λ c. 0 ∷ [];
  stream_recv = λ id n c. pop_in c.inbox c;
  stream_send = toy_stream_send;
  close = λ code reason c. (not c.shut, record c { shut = true });
}

-- The log of what was sent, the number of handles given out, and the clock.
pub record ToyWorld : Type 0 where
  pub log : List (ℕ × Bytes)
  pub queued : List (ℕ × List (UdpPacket ℕ))
  pub handles : ℕ
  pub clock : ℕ

abbrev note : {A : Type 0} → A → ℕ → Bytes → ToyWorld → A × ToyWorld
note a h bytes w = (a, record w { log = w.log ++ (h, bytes) ∷ [] })

abbrev fresh : ToyWorld → ℕ × ToyWorld
fresh w = (w.handles, record w { handles = suc w.handles })

abbrev pub toy_runtime : Runtime ℕ (UdpPacket ℕ)
toy_runtime = record {
  World = ToyWorld;
  Channel = ℕ;
  channel = λ n w. fresh w;
  try_send = λ h p. note sent h p.payload;
  send_wait = λ h p w. (true, record w { queued = w.queued ++ (h, p ∷ []) ∷ [] });
  CancelToken = ℕ;
  new_token = fresh;
  cancel = λ t w. w;
  TcpStream = ℕ;
  tcp_connect = λ a w. (some 9, w);
  write_all = λ h bytes. note true h bytes;
  try_read = λ h n w. (received (1 ∷ 2 ∷ 3 ∷ []), w);
  UdpSocket = ℕ;
  udp_bind = λ w. (some 8, w);
  udp_send_to = λ h bytes a. note true h bytes;
  scion_send_to = λ bytes a. note true a bytes;
  now = λ w. w.clock;
}

abbrev pub toy : Crates
toy = record { hmac = toy_hmac; scion = toy_scion; quiche = toy_quiche; runtime = toy_runtime }

abbrev pub new_world : ToyWorld
new_world = record { log = []; queued = []; handles = 100; clock = 0 }

module _ {A : Type 0} where
  -- What the log has of the handle `h`.
  logged : ℕ → List (ℕ × List A) → List A
  logged h [] = []
  logged h ((n, part) ∷ log) = (if n == h then part else []) ++ logged h log

  logged-append :
      (h : ℕ) (log : List (ℕ × List A)) (part : List A)
      → logged h (log ++ (h, part) ∷ []) ≡ logged h log ++ part
  unfolding logged
  logged-append h [] part = ground (arith, append-nil part, beq_refl h)
  logged-append h ((n, first) ∷ log) part =
      ap (λ rest. (if n == h then first else []) ++ rest) (logged-append h log part)
      ∙ sym (append_assoc (if n == h then first else []) (logged h log) part)

pub toy_stream-laws : StreamLaws toy_runtime
toy_stream-laws = record {
  written = λ h w. logged h w.log;
  written-write_all = λ h bytes w ok. logged-append h w.log bytes;
}

pub toy_channel-laws : ChannelLaws toy_runtime
toy_channel-laws = record {
  sent_to = λ h w. logged h w.queued;
  sent_to-send_wait = λ h p w ok. logged-append h w.queued (p ∷ []);
}

pop_in-shorter :
    (inbox : List Bytes) (c : ToyConn) (bytes : Bytes)
    → (pop_in inbox c).0 ≡ some bytes
    → length (pop_in inbox c).1.inbox < length inbox
pop_in-shorter [] c bytes e = absurd (ground arith)
pop_in-shorter (b ∷ bs) c bytes e = omega arith

pop_in-kept :
    (inbox : List Bytes) (c : ToyConn)
    → (pop_in inbox c).0 ≡ none
    → length (pop_in inbox c).1.inbox ≤ length c.inbox
pop_in-kept [] c e = omega arith
pop_in-kept (b ∷ bs) c e = absurd (ground arith)

pop_out-shorter :
    (outbox : List Bytes) (c : ToyConn) (bytes : Bytes) (from to : SocketAddr)
    → (pop_out outbox c).0 ≡ packet bytes from to
    → length (pop_out outbox c).1.outbox < length outbox
pop_out-shorter [] c bytes from to e = absurd (ground arith)
pop_out-shorter (b ∷ bs) c bytes from to e = omega arith

pub toy_quiche-laws : QuicheLaws toy_quiche
toy_quiche-laws = record {
  unread = λ c. length c.inbox;
  unread-stream_recv = λ id n c. pop_in-shorter c.inbox c;
  unread-stream_recv_none = λ id n c. pop_in-kept c.inbox c;
  unread-stream_send = λ id bytes c. omega arith;
  unsent = λ c. length c.outbox;
  unsent-send = λ n c. pop_out-shorter c.outbox c;
}

pub toy_unread : (c : ToyConn) → toy_quiche-laws.unread c ≡ length c.inbox
unfolding toy_quiche-laws
toy_unread c = refl

pub toy_unsent : (c : ToyConn) → toy_quiche-laws.unsent c ≡ length c.outbox
unfolding toy_quiche-laws
toy_unsent c = refl
