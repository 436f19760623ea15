-- ===== src/Tests/Tasks.antt =====
-- Examples of the theorems about the connection tasks of the proxy.
use mqtt_rust_scion.Prelude.{
  ℕ, ◌<◌, ◌≡◌, refl, ◌⊎◌, true, false, none, some, List, [], ◌∷◌, ◌++◌, arith, nat_eq, list_eq,
}
use mqtt_rust_scion.Prelude.Maps.{get}
use mqtt_rust_scion.Rust.{ok, err, foreign}
use mqtt_rust_scion.Net.{UdpPacket}
use mqtt_rust_scion.Proxy.QuicConnection
use mqtt_rust_scion.Proxy.QuicConnection.Relay.{process_udp_packet-no_cert, relayed, BrokenOff}
use mqtt_rust_scion.Proxy.QuicConnection.Delivery.{IsServed, process_udp_packet_delivers}
use mqtt_rust_scion.Proxy.UdpConnection
use mqtt_rust_scion.Proxy.UdpConnection.{udp_packet, broker_packet}
use mqtt_rust_scion.Proxy.UdpConnection.Addressing.{main_loop-replies, reply}
use mqtt_rust_scion.Proxy.System.{System}
use mqtt_rust_scion.Proxy.UdpLifecycle
use mqtt_rust_scion.Proxy.UdpLifecycle.{Reach-IsConsistent_udp}
use mqtt_rust_scion.Proxy.Lifecycle
use mqtt_rust_scion.Proxy.Lifecycle.{
  IsConsistent, Reach, here, then, receives, ends, Reach-IsConsistent,
}
use mqtt_rust_scion.Tests.Samples.{
  toy_hmac-laws, toy_stream-laws, toy_quiche-laws, toy_unread, toy, ip_of, new_conn, new_world,
  ToyConn,
}
use mqtt_rust_scion.Tests.Dispatch.{proxy, serving, client_task, derived_id}

-- A packet of the client at address 3.
abbrev hello : UdpPacket ℕ
hello = record { src = 3; dst = 2; payload = 4 ∷ 5 ∷ [] }

abbrev without_cert : QuicConnection.Task toy
without_cert = record {
  connection = record client_task { conn = record new_conn { cert = false } };
  world = new_world;
}

process_udp_packet-no_cert_example :
    let t = (QuicConnection.process_udp_packet toy 3 hello without_cert).1 in
    (t.world ≡ new_world) × (t.tcp_stream ≡ none)
process_udp_packet-no_cert_example =
    process_udp_packet-no_cert toy 3 hello without_cert (λ info. refl)

abbrev connected : QuicConnection.Task toy
connected = record { connection = record client_task { tcp_stream = some 9 }; world = new_world }

abbrev received : ToyConn
received = record new_conn { inbox = (4 ∷ 5 ∷ []) ∷ [] }

connected-IsServed : IsServed toy toy_quiche-laws toy_stream-laws hello connected 9 received
connected-IsServed = record {
  from = ip_of 3;
  to = ip_of 2;
  src_is_ip = refl;
  dst_is_ip = refl;
  taken = refl;
  shown = refl;
  established = refl;
  stream = refl;
}

unread_received : toy_quiche-laws.unread received < 3
unread_received = omega (arith, toy_unread received)

process_udp_packet_delivers_example :
    let (outcome, t) = QuicConnection.process_udp_packet toy 3 hello connected in
    let new = relayed toy 3 (0 ∷ []) received in
    ((outcome ≡ ok tt)
      × (toy_stream-laws.written 9 t.world ≡ toy_stream-laws.written 9 new_world ++ new))
    ⊎ ((outcome ≡ err foreign) × BrokenOff toy toy_stream-laws 9 new_world new t.world)
process_udp_packet_delivers_example =
    process_udp_packet_delivers toy toy_quiche-laws toy_stream-laws 3 hello connected 9 received
      connected-IsServed unread_received

abbrev sending : QuicConnection.Task toy
sending = record connected {
  connection = record connected.connection {
    conn = record new_conn { outbox = (1 ∷ []) ∷ (2 ∷ []) ∷ [] };
  };
}

abbrev udp_task : UdpConnection.Task toy
udp_task = record {
  connection = record {
    config = record { local_proxy_addr = 2; remote_client_addr = 3; mqtt_broker_address = ip_of 9 };
    udp_socket = some 8;
    rx_udp_to_quic = 101;
    tx_quic_to_udp = 50;
    cancel_token = 100;
  };
  world = new_world;
}

-- The client moves from address 3 to address 4.
abbrev moves : List (UdpConnection.Event ℕ)
moves = udp_packet (some hello) ∷ udp_packet (some (record hello { src = 4 })) ∷ []

runs_on : (UdpConnection.main_loop toy moves udp_task).0 ≡ ok true
unfolding UdpConnection.main_loop UdpConnection.round UdpConnection.to_broker
runs_on = refl

main_loop-replies_example :
    let t = (UdpConnection.main_loop toy moves udp_task).1 in
    UdpConnection.round toy (broker_packet (some (7 ∷ [], ip_of 9))) t
    ≡ reply toy
        (record udp_task.connection {
          config = record {
            local_proxy_addr = 2;
            remote_client_addr = 4;
            mqtt_broker_address = ip_of 9;
          };
        })
        (7 ∷ [])
        t
main_loop-replies_example = main_loop-replies toy moves udp_task (7 ∷ []) (ip_of 9) runs_on

serving-IsConsistent : IsConsistent toy serving
unfolding get
serving-IsConsistent = record { matched = refl; distinct = (refl, tt) }

-- The task ends.
Reach-IsConsistent_example : IsConsistent toy (Lifecycle.end_quic_task toy derived_id [] serving)
Reach-IsConsistent_example =
    Reach-IsConsistent toy toy_hmac-laws
      (then here (ends serving [] [] derived_id client_task refl)) serving-IsConsistent

abbrev udp_serving : System toy
udp_serving = record proxy {
  proxy = record proxy.proxy {
    udp_connections = (3, record { sender = 101; cancel_token = 100 }) ∷ [];
  };
  udp_tasks = (3, udp_task.connection) ∷ [];
}

udp_serving-IsConsistent : UdpLifecycle.IsConsistent toy udp_serving
unfolding get
udp_serving-IsConsistent = record { matched = refl; distinct = (refl, tt) }

-- The task ends.
Reach-IsConsistent_udp_example :
    UdpLifecycle.IsConsistent toy (UdpLifecycle.end_udp_task toy 3 [] udp_serving)
Reach-IsConsistent_udp_example =
    Reach-IsConsistent_udp toy
      (UdpLifecycle.then UdpLifecycle.here
        (UdpLifecycle.ends udp_serving [] [] 3 udp_task.connection refl))
      udp_serving-IsConsistent
