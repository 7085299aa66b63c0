-- ===== src/Stack/Tests.antt =====
-- The theorems on src/stack/mod.rs and src/stack/device.rs, on the concrete crates of Stack/Toy.
use tap_tunnel.Prelude.{
  ℕ, ◌+◌, ◌%◌, ◌^◌, ◌≤◌, ◌<◌, ◌≡◌, refl, ◌↔◌, List, [], ◌∷◌, none, some, Bool, true, false, map,
  arith, inl, inr,
}
use tap_tunnel.Bytes.{Bytes}
use tap_tunnel.Net.{SocketAddr, socket_v4, v4, socket_addr_to_endpoint}
use tap_tunnel.Map
use tap_tunnel.Stats.{new_shared}
use tap_tunnel.Stack.Smoltcp.{TcpState, listen, established}
use tap_tunnel.Stack.State.{
  Stack, StackCommand, tcp_listen, TcpSocketState, UdpSocketState, ListenerState, PendingOp,
  Datagram, listening, send, ephemeral_port_start, allocate_ephemeral_port,
}
use tap_tunnel.Stack.DataPath.{
  process_tcp_write, process_tcp_read, process_udp_write, process_udp_read,
}
use tap_tunnel.Stack.Commands.{handle_command}
use tap_tunnel.Stack.Listeners.{
  handle_tcp_listener_close, handle_tcp_listen, close_listening, finish_listen, listen_loop,
  port_in_use,
}
use tap_tunnel.Stack.Pending.{abort_pending}
use tap_tunnel.Stack.TcpWrite.{WritesAll, process_tcp_write-WritesAll}
use tap_tunnel.Stack.TcpRead.{ReadsAll, process_tcp_read-ReadsAll}
use tap_tunnel.Stack.UdpWrite.{CountsAll, process_udp_write-CountsAll}
use tap_tunnel.Stack.UdpRead.{Delivers, process_udp_read-Delivers}
use tap_tunnel.Stack.Device.{ProxyDevice, filled, Transmits, consume_all, consume_all-Transmits}
use tap_tunnel.Stack.Ports.{after_ports, allocate_ephemeral_port-nth, IsDistinct}
use tap_tunnel.Stack.Distinct.{handle_command-IsDistinct}
use tap_tunnel.Stack.Endings.{
  aborted, abort_pending-aborted, closed_if_listening, member, handle_tcp_listener_close-get,
}
use tap_tunnel.Stack.Answering.{Answered}
use tap_tunnel.Stack.Answering.Commands.{handle_command-Answered}
use tap_tunnel.Stack.Fifo.{fifo, fifo_receiver, fifo_sender}
use tap_tunnel.Stack.Toy.{toy, toy_streams, toy_packets, toy_laws, ToyTcp, ToyUdp}

abbrev peer : SocketAddr
peer = socket_v4 (10 ∷ 0 ∷ 0 ∷ 1 ∷ []) 80

abbrev socket : ToyTcp
socket = record {
  status = established;
  writable = true;
  out = 1 ∷ [];
  inc = 7 ∷ 8 ∷ 9 ∷ [];
  local = none;
  remote = some (socket_addr_to_endpoint peer);
}

abbrev tcp_state : TcpSocketState toy
tcp_state = record {
  write_rx = (4 ∷ []) ∷ (5 ∷ 6 ∷ 7 ∷ 8 ∷ 9 ∷ []) ∷ [];
  read_tx = (2, []);
  pending_write = some (2 ∷ 3 ∷ []);
}

process_tcp_write-WritesAll_example :
    WritesAll toy toy_streams
      (fifo_receiver Bytes)
      (process_tcp_write toy 3 socket tcp_state)
      (socket, tcp_state)
process_tcp_write-WritesAll_example =
    process_tcp_write-WritesAll toy toy_streams (fifo_receiver Bytes) 3 socket tcp_state
      (omega arith)

process_tcp_read-ReadsAll_example :
    ReadsAll toy toy_streams
      (fifo_sender Bytes)
      (process_tcp_read toy 3 socket tcp_state)
      socket
      tcp_state
process_tcp_read-ReadsAll_example =
    process_tcp_read-ReadsAll toy toy_streams (fifo_sender Bytes) 3 socket tcp_state (omega arith)

abbrev udp_state : UdpSocketState toy
udp_state = record { write_rx = ((1 ∷ 2 ∷ [], peer)) ∷ (([], peer)) ∷ []; read_tx = (1, []) }

abbrev udp_socket : ToyUdp
udp_socket =
    ((3 ∷ [], socket_addr_to_endpoint peer)) ∷ ((4 ∷ [], socket_addr_to_endpoint peer)) ∷ []

process_udp_write-CountsAll_example :
    CountsAll toy
      (fifo_receiver Datagram)
      (process_udp_write toy 3 udp_socket udp_state new_shared)
      udp_socket
      udp_state
      new_shared
process_udp_write-CountsAll_example =
    process_udp_write-CountsAll toy (fifo_receiver Datagram) 3 udp_socket udp_state new_shared
      (omega arith) (omega arith) (omega arith)

process_udp_read-Delivers_example :
    Delivers toy toy_packets
      (fifo_sender Datagram)
      (process_udp_read toy 2 udp_socket udp_state new_shared)
      udp_socket
      udp_state
      new_shared
process_udp_read-Delivers_example =
    process_udp_read-Delivers toy toy_packets (fifo_sender Datagram) 2 udp_socket udp_state
      new_shared (omega arith) (omega arith) (omega arith)

abbrev device : ProxyDevice (fifo Bytes)
device = record { rx = []; tx = (1, []); mtu = 1514; stats = new_shared }

abbrev two_frames : List (ℕ × (Bytes → Bool × Bytes))
two_frames = ((2, λ b. (true, 9 ∷ b))) ∷ ((3, λ b. (false, b))) ∷ []

consume_all-Transmits_example :
    Transmits
      (fifo Bytes)
      (fifo_sender Bytes)
      (filled (fifo Bytes) two_frames)
      device
      (consume_all (fifo Bytes) device two_frames)
consume_all-Transmits_example =
    consume_all-Transmits (fifo Bytes) (fifo_sender Bytes) two_frames device
      (omega arith, omega arith)

abbrev listener : ListenerState
listener = record { addr = peer; listening_handles = 1 ∷ 2 ∷ [] }

-- A listener with a socket that listens and one that is established, and a UDP socket.
abbrev stack : Stack toy
stack = record {
  config = record {
    mac = 2 ∷ 0 ∷ 0 ∷ 0 ∷ 0 ∷ 1 ∷ [];
    ip = v4 (10 ∷ 0 ∷ 0 ∷ 2 ∷ []);
    prefix_len = 24;
    gateway = v4 (10 ∷ 0 ∷ 0 ∷ 1 ∷ []);
  };
  iface = [];
  sockets = ((1, inl (record socket { status = listen }))) ∷ ((2, inl socket)) ∷ ((3, inr [])) ∷ [];
  pending = ((1, PendingOp.tcp_accept 70)) ∷ [];
  listeners = ((1, listener)) ∷ [];
  tcp_states = ((2, tcp_state)) ∷ [];
  udp_states = ((3, udp_state)) ∷ [];
  ephemeral_port = ephemeral_port_start;
  stats = new_shared;
  replies = [];
}

allocate_ephemeral_port-nth_example :
    ((allocate_ephemeral_port toy (after_ports toy 16384 stack)).0
      ≡ (ephemeral_port_start + 16384) % 2 ^ 16)
    × ((ephemeral_port_start ≤ (allocate_ephemeral_port toy (after_ports toy 16384 stack)).0)
        ↔ (16384 % 2 ^ 16 < 16384))
allocate_ephemeral_port-nth_example = allocate_ephemeral_port-nth toy 16384 stack refl

abort_pending-aborted_example :
    abort_pending toy stack
    ≡ record stack { pending = []; replies = map (aborted toy) stack.pending }
abort_pending-aborted_example = abort_pending-aborted toy stack

-- After the close of the listener: its first socket is closed.
abbrev closed : Stack toy
closed = record stack {
  sockets =
      ((1, inl (record socket { status = TcpState.closed; writable = false })))
      ∷ ((2, inl socket))
      ∷ ((3, inr []))
      ∷ [];
  pending = [];
  listeners = [];
}

-- After a second listener, on port 81.
abbrev listened : Stack toy
listened = record stack {
  sockets =
      Map.insert 9
        (inl (record {
          status = listen;
          writable = false;
          out = [];
          inc = [];
          local = none;
          remote = none;
        }))
        stack.sockets;
  listeners =
      Map.insert 9 (record { addr = socket_v4 [] 81; listening_handles = 9 ∷ [] }) stack.listeners;
  replies = (71, listening 9 (socket_v4 [] 81)) ∷ [];
}

handle_command-IsDistinct_example : IsDistinct listened.listeners
unfolding handle_command handle_tcp_listen finish_listen listen_loop port_in_use send Map.insert
    Map.remove
handle_command-IsDistinct_example =
    handle_command-IsDistinct toy (tcp_listen (socket_v4 [] 81) 1 71) stack listened refl (refl, tt)

handle_tcp_listener_close-get_example :
    (toy.get_tcp closed.sockets 2
      ≡ closed_if_listening toy toy_laws (member 2 (1 ∷ 2 ∷ [])) (toy.get_tcp stack.sockets 2))
    × (toy.get_udp closed.sockets 2 ≡ toy.get_udp stack.sockets 2)
    × (Map.get 1 closed.listeners ≡ none)
    × (Map.get 1 closed.pending ≡ none)
unfolding handle_tcp_listener_close close_listening Map.get Map.insert Map.remove
handle_tcp_listener_close-get_example =
    handle_tcp_listener_close-get toy toy_laws (λ x. refl) 1 stack closed listener refl refl 2

handle_command-Answered_example :
    Answered toy
      (StackCommand.tcp_accept 1 72)
      stack
      (handle_command toy (StackCommand.tcp_accept 1 72) stack)
handle_command-Answered_example = handle_command-Answered toy (StackCommand.tcp_accept 1 72) stack
