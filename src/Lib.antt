-- ===== src/Lib.antt =====
-- tap-tunnel (README.md) gives a process sockets in another network namespace. The library
-- (src/) runs a TCP/IP stack, smoltcp, in a task of the process; a proxy (proxy/src/) in the
-- namespace moves Ethernet frames between a TAP device and a Unix socket to the library. The
-- application's sockets talk to the stack task through bounded channels.
--
-- The files, and the code that they are about:
--   Prelude, Bits, Map         shared helpers: lists, Boolean tests, `bit_and`, `HashMap`s
--   Io, Bytes, Net             `io::Result`, byte strings, addresses and their conversions
--   Channel                    tokio's bounded channels, as parameters with laws
--   Stats                      `TunnelStats` of src/lib.rs
--   Protocol                   src/protocol.rs: messages; Protocol/Framing the length-prefixed
--                              framing, Protocol/Address `default_client_ip` and
--                              `validate_ip_in_subnet`
--   Stack                      src/stack/mod.rs: Stack/State its types, Stack/DataPath the four
--                              `process_…` functions of the data path, Stack/Listeners and
--                              Stack/Commands the handlers, Stack/Pending `process_pending`,
--                              Stack/Run the loop of `run_stack`; Stack/Device is
--                              src/stack/device.rs; Stack/Smoltcp is what they call of smoltcp
--   Socket                     src/socket/mod.rs; Socket/Split the halves of a split stream,
--                              Socket/Halves how they are dropped
--   Tunnel                     src/lib.rs: the configuration and the client's handshake;
--                              Tunnel/Close `close`, Tunnel/Reader and Tunnel/Writer the tasks of
--                              `setup_stack_from_fd` on the IPC socket, Tunnel/Requests
--                              `send_proxy_command` and the methods that call it,
--                              Tunnel/Launch `find_proxy_binary`, the arguments of `spawn_proxy` and
--                              the wait for the proxy, Tunnel/Api the methods that send commands to
--                              the stack task, and `TcpListener` of src/socket/mod.rs
--   Proxy                      proxy/src/main.rs: arguments and commands; Proxy/Handshake the
--                              handshake over `read` and `write`, Proxy/Relay the tasks of
--                              `run_frame_relay`
-- The other files hold lemmas and theorems; files called Tests apply the theorems to concrete
-- inputs, in Stack/Tests to the small crates of Stack/Toy and Stack/Fifo.
--
-- A handler keeps the name of its Rust function. The state that `run_stack` keeps in its locals is
-- the record `Stack`, passed along; responses go to the list `replies`, and a response that is
-- dropped is never in it. A panic is `none`. Numbers are natural numbers, with the wrap-around of a
-- machine integer written out where the code adds or shifts; where a debug build panics and a
-- release build wraps, the model takes the build as an argument. A `HashMap` is an association
-- list, and a statement about all of them holds for every order of iteration.
--
-- Loops that the code bounds only by what its channels and sockets hold run on fuel: the data path
-- on more than the chunks or permits of its channel, the descriptor loops on more than the bytes to
-- move and the writes that put nothing, the tasks on the sockets on more than the messages to come, the wait for the proxy on more
-- than the bytes and the timeouts. The theorems show that this is enough.
--
-- Not part of the repository, and parameters here: smoltcp, tokio's channels, serde_json, rtnetlink,
-- the kernel, and the parsers of the standard library. What is relied on of them stands in records
-- of laws (Stack/Smoltcp, Stack/UdpRead, Channel, Protocol, Socket/Reads, Socket/Split/Parts,
-- Tunnel/Writer/Batch, Tunnel/Launch/Waiting, Proxy/Transfers, Proxy/Relay/Delivery and
-- Proxy/Relay/Outbound/Batch).
-- Not modelled: the system calls of src/ipc.rs and proxy/src/{ipc,tap,namespace,route}.rs, the
-- start of the proxy and of the tasks, `run_proxy`, logging, time, and the `Notify` that only wakes
-- the stack task.
pub mod Prelude
pub mod Io
pub mod Bytes
pub mod Bits
pub mod Net
pub mod Protocol
pub mod Map
pub mod Channel
pub mod Stats
pub mod Stack
pub mod Tunnel
pub mod Proxy
pub mod Socket
