-- ===== src/Lib.antt =====
-- A model of mqtt-rust-scion, MQTT over QUIC over SCION: a proxy that stands before an MQTT broker,
-- a client with its task, the command line that runs them, and the Python bindings of the client.
--
-- The proxy (src/proxy/mod.rs) reads datagrams from one SCION socket in one main task. In the mode
-- `QuicEndpoint` it parses the QUIC header of each, forwards packets of known connections to the task
-- of the connection through a channel, answers first packets by version negotiation or by a Retry
-- with a token, and creates a connection for a packet that brings a valid token back. Each QUIC task
-- (src/proxy/connection_mode_quic.rs) ends the QUIC connection of one client and relays stream 0 to
-- the broker over TCP. In the mode `UdpEndpoint` there is one task per source address
-- (src/proxy/connection_mode_udp.rs), which relays whole datagrams. Tasks send through one channel
-- to the main task, which owns the socket. The client (src/client/mod.rs) has one task that speaks
-- MQTT over stream 0 and serves the requests of the methods of `Client`, which wait for a notification
-- from it. Both sides configure QUIC by src/net/quic.rs. src/main.rs runs the proxy or one command of a
-- client; src/python.rs wraps the client with a lock.
--
-- Files:
--   Prelude, Prelude/Tests, Prelude/Lists, Prelude/Maps: numbers, lists, and hash maps as
--     association lists with at most one entry for a key.
--   Rust: bytes, slices that panic, IP addresses, errors and outcomes; Rust/Text: trimming of texts.
--   Exec: bodies of methods, which pass a state along and end by a result, an error, a panic, a wait,
--     or with no fuel. Exec/Keeps: the rules for what a body keeps; Exec/Settles: for bodies on fuel
--     that come to an end.
--   Net: `UdpPacket` and the constants of src/net. Net/Quic: `configure_quic`; Quic/Configured: what
--     it allows.
--   Extern/*: the crates that the program calls, as parameters, with the laws that it relies on.
--     Ring is ring::hmac, Scion is scion_proto, Quiche is quiche, Runtime is tokio with the SCION
--     socket and the clock, Mqtt is mqtt_protocol_core; Crates and ClientCrates collect them. Host is
--     the files and the SCION stack, QuicConfig the builder of quiche's configuration.
--   Proxy/Token: `mint_token` and `validate_token`. Token/Laws and Token/Validity: their theorems.
--   Proxy/System: `Proxy`, `Mode`, and the state of the proxy with its tasks and its world.
--   Proxy/Dispatch: `handle_udp_packet_mode_quic`, one function for each part of it, and
--     `handle_udp_packet_mode_udp`. Dispatch/Effect, Admission, Retry and Outcomes: their theorems.
--   Proxy/Run: the loop of `run`. Run/Ends: how it ends.
--   Proxy/Setup: `Proxy::new` and `run` with its set-up. Setup/Listening and Setup/Started: their
--     theorems.
--   Proxy/QuicConnection: the QUIC task. QuicConnection/Links: what it never changes; Relay and
--     Delivery: what it writes to the broker; Flush: what it sends to its client.
--   Proxy/UdpConnection: the UDP task. UdpConnection/Addressing: where the packets of the broker go.
--   Proxy/Lifecycle and Proxy/UdpLifecycle: the proxy and its tasks as a step relation, in any
--     interleaving, in each of the two modes.
--   Client/Connection: the task of the client. Connection/Events, Messages, Requests and QosOne: its
--     theorems; Preserve and ConnectOnce: what the rounds keep; Parts, Drain and Rounds: their fuel.
--   Client/Setup: `Connection::new`; Setup/Opened: its theorem. Client/Api: the methods of
--     `Client`; Api/Sent, Connected and Ready: their theorems.
--   Client/Exchange: a client and its task as a step relation. Exchange/Phases, Between and Steps: what
--     becomes of a request; Exchange/Exclusive: the theorems.
--   Cli: main.rs; Cli/Commands and Cli/Serving: its theorems. Python: python.rs; Python/Config and
--     Python/Lock: its theorems.
--   Tests/*: concrete crates, and the theorems at concrete inputs.
--
-- How state and time are modelled. A method of an `&mut self` becomes a function on the state of its
-- task and the world. The world holds what tasks share: channels, sockets, cancellation tokens and
-- the clock; a handle in a task stands for such an object. A `select!` is an event that says which
-- branch was ready and what its call returned, and a loop over `select!` is a list of events, so
-- theorems for all lists hold for all schedules. The loops on `send` and on `stream_recv` take fuel:
-- more fuel than QUIC has packets to send, or data to read, is enough, since each call takes some out.
--
-- `run` of the proxy never ends well, so the command `proxy` goes on waiting once the events are
-- served. The loop of the command `subscribe` takes fuel: more than there are messages is enough. A
-- call that never comes back is the outcome `waiting`; the methods of `Client` run to their end or to
-- such a wait in one step, beside the step relation of Client/Exchange, in which the task goes on
-- between the parts of a method. There too a method runs until it returns: no step drops its future
-- half-way. In Proxy/Lifecycle and Proxy/UdpLifecycle a task that panics stays among the tasks, as its
-- entry stays in the table.
--
-- Not modelled: the logging; the parsing of arguments with its defaults (clap) and the classes, getters
-- and `__repr__` methods of the Python module (pyo3); src/lib.rs, which only declares modules. The
-- state of quiche, of the MQTT crate, of tokio with its channels and mutexes, of the SCION stack and
-- of ring is a parameter, and so are files and random numbers.
mod Prelude
pub mod Rust
pub mod Exec
pub mod Net
pub mod Extern
pub mod Proxy
pub mod Client
pub mod Cli
pub mod Python
mod Tests
