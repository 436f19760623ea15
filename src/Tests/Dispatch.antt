-- ===== src/Tests/Dispatch.antt =====
-- Examples of the theorems about the dispatch of datagrams and about the main loop.
use mqtt_rust_scion.Prelude.{
  ℕ, ◌≡◌, refl, ◌⊎◌, none, some, [], ◌∷◌, ◌++◌, nat_eq, list_eq, replicate,
}
use mqtt_rust_scion.Prelude.Maps.{insert, get, remove}
use mqtt_rust_scion.Rust.{Bytes, octets, ok}
use mqtt_rust_scion.Extern.Quiche.{Header, initial, max_conn_id_len}
use mqtt_rust_scion.Proxy.Token.Validity.{IsSigned}
use mqtt_rust_scion.Proxy.QuicConnection
use mqtt_rust_scion.Proxy.System.{quic_endpoint, System}
use mqtt_rust_scion.Net.{UdpPacket}
use mqtt_rust_scion.Extern.Runtime.{sent, full, closed}
use mqtt_rust_scion.Proxy.Dispatch.{Received, handle_udp_packet_mode_quic}
use mqtt_rust_scion.Proxy.Dispatch.Effect.{SameTables, Spawned, IsAdmitted}
use mqtt_rust_scion.Proxy.Dispatch.Admission.{route, handle_quic_admits_validated}
use mqtt_rust_scion.Proxy.Dispatch.Retry.{
  IsFresh, handle_quic-retry, handle_quic-retried, handle_quic-first_id,
}
use mqtt_rust_scion.Proxy.Dispatch.Outcomes.{Fault, handle_quic_outcome}
use mqtt_rust_scion.Proxy.Run.{datagram, Bound, main_loop}
use mqtt_rust_scion.Proxy.Run.Ends.{Stopped, main_loop_ends}
use mqtt_rust_scion.Tests.Samples.{
  toy_hmac, toy_hmac-laws, toy, ip_of, toy_settings, new_conn, new_world,
}
use mqtt_rust_scion.Tests.Token.{client_id, first_header, minted}

abbrev pub proxy : System toy
proxy = record {
  proxy = record {
    config = record { listen = 2; mode = quic_endpoint; mqtt_broker_address = ip_of 9 };
    quic_config = toy_settings;
    token_key = 5;
    conn_id_seed = 6;
    udp_connections = [];
    quic_connections = [];
  };
  quic_tasks = [];
  udp_tasks = [];
  world = new_world;
}

abbrev pub from_client : Bytes → Received toy
from_client bytes = record {
  buf = bytes;
  src_ip_socket = ip_of 3;
  src_scion_socket = 3;
  local_ip_socket = ip_of 2;
  local_scion_socket = 2;
  tx_quic_to_udp = 50;
}

abbrev pub first : Received toy
first = from_client (0 ∷ 1 ∷ client_id)

abbrev pub derived_id : Bytes
derived_id = 146 ∷ replicate 19 0

abbrev pub second : Received toy
second = from_client (0 ∷ 1 ∷ (derived_id ++ minted))

abbrev second_header : Header
second_header = record {
  ty = initial;
  version = 1;
  dcid = derived_id;
  scid = [];
  token = some minted;
}

first-IsFresh : IsFresh toy toy_hmac-laws first proxy first_header
unfolding get
first-IsFresh = record { parsed = refl; is_first = refl; supported = refl; unknown = refl }

second-IsFresh : IsFresh toy toy_hmac-laws second proxy second_header
unfolding get
second-IsFresh = record { parsed = refl; is_first = refl; supported = refl; unknown = refl }

handle_quic_admits_validated_example :
    let t = (handle_udp_packet_mode_quic toy second proxy).1 in
    SameTables toy proxy t
    ⊎ ((hdr : Header) × (admitted : IsAdmitted toy second proxy hdr) × IsSigned toy_hmac 5
          (octets (ip_of 3).ip)
          admitted.token
          admitted.odcid
        × Spawned toy hdr.dcid proxy t)
handle_quic_admits_validated_example = handle_quic_admits_validated toy toy_hmac-laws second proxy

handle_quic-retry_example :
    let retry : UdpPacket ℕ = record {
      src = 2;
      dst = 3;
      payload = 0 ∷ 1 ∷ (derived_id ++ minted);
    } in
    handle_udp_packet_mode_quic toy first proxy
    ≡ (ok tt, record proxy { world = (toy.try_send 50 retry new_world).1 })
handle_quic-retry_example =
    handle_quic-retry toy toy_hmac-laws first proxy first_header (0 ∷ 1 ∷ (derived_id ++ minted))
      first-IsFresh refl refl

handle_quic-retried_example :
    let (outcome, t) = handle_udp_packet_mode_quic toy second proxy in
    (outcome ≡ ok tt) × Spawned toy derived_id proxy t
handle_quic-retried_example =
    handle_quic-retried toy toy_hmac-laws first second proxy proxy first_header second_header
      {conn = new_conn} refl refl second-IsFresh refl refl refl refl

-- The task of the client, and the proxy with it.
abbrev pub client_task : QuicConnection.Connection toy
client_task = record {
  config = record { local_isd_as = 1; remote_isd_as = 1; mqtt_broker_address = ip_of 9 };
  conn = new_conn;
  tcp_stream = none;
  rx_udp_to_quic = 101;
  tx_quic_to_udp = 50;
  cancel_token = 100;
  client_cert_timer = 0;
}

abbrev pub serving : System toy
serving = record proxy {
  proxy = record proxy.proxy {
    quic_connections = (derived_id, record { sender = 101; cancel_token = 100 }) ∷ [];
  };
  quic_tasks = (derived_id, client_task) ∷ [];
}

serving-Spawned : Spawned toy derived_id proxy serving
unfolding insert remove
serving-Spawned = record {
  task = client_task;
  config = refl;
  token_key = refl;
  conn_id_seed = refl;
  quic_connections = refl;
  udp_connections = refl;
  quic_tasks = refl;
  udp_tasks = refl;
}

own_entry : get serving.quic_connections client_id ≡ none
unfolding get
own_entry = refl

handle_quic-first_id_example :
    let packet : UdpPacket ℕ = record { src = 3; dst = 2; payload = first.buf } in
    let (result, w) = toy.try_send 101 packet new_world in
    handle_udp_packet_mode_quic toy first serving ≡ (
      ok tt,
      record serving { world = elim result [ sent ↦ w | full ↦ w | closed ↦ toy.cancel 100 w ] },
    )
unfolding serving-Spawned
handle_quic-first_id_example =
    handle_quic-first_id toy toy_hmac-laws first proxy proxy serving first_header first_header
      serving-Spawned refl refl refl own_entry

handle_quic_outcome_example :
    ((handle_udp_packet_mode_quic toy first proxy).0 ≡ ok tt)
    ⊎ ((hdr : Header) × (toy.from_slice first.buf max_conn_id_len ≡ some hdr)
        × (route toy toy_hmac-laws proxy hdr ≡ none)
        × (hdr.ty ≡ initial)
        × Fault toy toy_hmac-laws first proxy hdr)
handle_quic_outcome_example = handle_quic_outcome toy toy_hmac-laws first proxy

abbrev bound : Bound ℕ ℕ
bound = record { local_addr = ip_of 2; local_scion_addr = 2; tx_quic_to_udp = 50 }

main_loop_ends_example :
    ((main_loop toy bound (datagram first.buf 3 ∷ datagram second.buf 3 ∷ []) proxy).0 ≡ ok tt)
    ⊎ Stopped toy toy_hmac-laws bound (datagram first.buf 3 ∷ datagram second.buf 3 ∷ []) proxy
main_loop_ends_example =
    main_loop_ends toy toy_hmac-laws bound (datagram first.buf 3 ∷ datagram second.buf 3 ∷ []) proxy
