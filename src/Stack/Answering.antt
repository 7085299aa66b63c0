-- ===== src/Stack/Answering.antt =====
-- What a command of src/stack/mod.rs gets for an answer.
pub mod Opening
pub mod Commands
use mathlib.Core.Path.{subst}
use mathlib.Core.Option.{get_or}
use Prim.Native.String.{◌++◌ as str_append}
use tap_tunnel.Prelude.{
  ℕ, ◌==◌, ◌≡◌, refl, sym, ap, ◌∙◌, Option, some, none, List, [], ◌∷◌, ◌++◌, arith, Bool-cases,
  Option-cases, inl, inr, ◌⊎◌, String, if◌then◌else◌, true, false,
}
use tap_tunnel.Io.{io_error, other, addr_in_use, invalid_input, out_of_memory}
use tap_tunnel.Net.{
  IpAddr, SocketAddr, port, IpListenEndpoint, ip_addr_to_smoltcp, socket_addr_to_endpoint,
  make_socket_addr, socket_addr_to_listen_endpoint, socket_addr_to_listen_endpoint_with_port,
}
use tap_tunnel.Map
use tap_tunnel.Map.{Map, get-insert}
use tap_tunnel.Stack.Smoltcp.{IpCidr}
use tap_tunnel.Stack.State.{
  World, Stack, StackCommand, PendingOp, ListenerState, Reply, TcpChannels, stream, listening,
  bound, done, ips, failed, send, tcp_listen, tcp_listener_close, tcp_close, udp_bind, udp_close,
  add_ip, remove_ip, get_ips, create_tcp_channels, create_udp_channels, allocate_ephemeral_port,
  tcp_socket_buffer_size,
}
use tap_tunnel.Stack.Listeners.{
  ◌>>=◌, port_in_use, listen_loop, finish_listen, handle_tcp_listen, try_accept_socket, accepted,
  handle_tcp_accept, handle_tcp_listener_close, close_listening,
}
use tap_tunnel.Stack.Commands.{
  handle_command, finish_connect, handle_tcp_connect, handle_tcp_close, finish_bind, udp_port,
  with_port, handle_udp_bind, handle_udp_close, has_cidr, handle_add_ip, handle_remove_ip,
  without_address, handle_get_ips, ips_of,
}

module _ (w : World) where
  -- The replies that a command's response channel can carry at once: a connect that succeeds waits,
  -- and a close has no response.
  abbrev pub IsReplyTo : StackCommand → Reply w → Type 0
  IsReplyTo (StackCommand.tcp_connect local_ip addr response) (failed e) = Unit
  IsReplyTo (tcp_listen addr backlog response) (listening h a) = Unit
  IsReplyTo (tcp_listen addr backlog response) (failed e) = Unit
  IsReplyTo (StackCommand.tcp_accept h response) (stream j l p c) = Unit
  IsReplyTo (StackCommand.tcp_accept h response) (failed e) = Unit
  IsReplyTo (udp_bind addr response) (bound h a c) = Unit
  IsReplyTo (udp_bind addr response) (failed e) = Unit
  IsReplyTo (add_ip ip n response) done = Unit
  IsReplyTo (add_ip ip n response) (failed e) = Unit
  IsReplyTo (remove_ip ip response) done = Unit
  IsReplyTo (get_ips response) (ips addrs) = Unit
  IsReplyTo _ _ = ⊥

  -- The response channel of a command that has one.
  abbrev pub response_channel : StackCommand → ℕ
  response_channel (StackCommand.tcp_connect local_ip addr response) = response
  response_channel (tcp_listen addr backlog response) = response
  response_channel (StackCommand.tcp_accept h response) = response
  response_channel (udp_bind addr response) = response
  response_channel (add_ip ip n response) = response
  response_channel (remove_ip ip response) = response
  response_channel (get_ips response) = response
  response_channel (tcp_listener_close h) = 0
  response_channel (tcp_close h) = 0
  response_channel (udp_close h) = 0

  -- What a command that is not answered leaves: a pending operation with its response channel, and
  -- with the handle of the listener, for an accept. Nothing waits after a close.
  abbrev pub IsPending : StackCommand → Stack w → Type 0
  IsPending (StackCommand.tcp_connect local_ip addr response) s =
      (h : ℕ) × (l : SocketAddr) × (c : TcpChannels w) × (Map.get h s.pending
        ≡ some (PendingOp.tcp_connect l addr c response))
  IsPending (StackCommand.tcp_accept h response) s =
      Map.get h s.pending ≡ some (PendingOp.tcp_accept response)
  IsPending (tcp_listener_close h) s = Unit
  IsPending (tcp_close h) s = Unit
  IsPending (udp_close h) s = Unit
  IsPending _ s = ⊥

  -- One reply of the right kind on the command's own channel, or none and a pending operation.
  abbrev pub Answered : StackCommand → Stack w → Option (Stack w) → Type 0
  Answered c s none = Unit
  Answered c s (some after) =
      ((reply : Reply w) × (after.replies ≡ s.replies ++ (response_channel c, reply) ∷ [])
        × IsReplyTo c reply)
      ⊎ ((after.replies ≡ s.replies) × IsPending c after)

  pub get-inserted :
      {V : Type 0} (k : ℕ) (v : V) (m : Map V) → Map.get k (Map.insert k v m) ≡ some v
  get-inserted k v m = ground (arith, get-insert k k v m)

  -- A handler that panics when something is not there.
  pub bind-Answered :
      {X : Type 0} (c : StackCommand) (s : Stack w) (o : Option X) (f : X → Stack w)
      → ((x : X) → Answered c s (some (f x)))
      → Answered c s (o >>= λ x. some (f x))
  bind-Answered c s none f all = tt
  bind-Answered c s (some x) f all = all x
