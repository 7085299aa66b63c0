-- ===== src/Stack/Run.antt =====
-- The loop of `run_stack` in src/stack/mod.rs. One pass takes what `tokio::select!` woke for and
-- whether the IPC connection is lost; `none` is a panic, or fuel that ran out in a data-path loop.
use tap_tunnel.Prelude.{ℕ, zero, suc, Bool, true, false, ◌||◌, Option, none, some, [], ◌∷◌}
use tap_tunnel.Net.{ip_addr_to_smoltcp}
use tap_tunnel.Map.{Map}
use tap_tunnel.Stats.{TunnelStats, new_shared}
use tap_tunnel.Stack.Smoltcp.{idle, packet_processed, socket_state_changed}
use tap_tunnel.Stack.State.{
  World, Stack, StackConfig, StackCommand, TcpSocketState, UdpSocketState, ingress_batch_size,
}
use tap_tunnel.Stack.DataPath.{
  process_tcp_write, process_tcp_read, process_udp_write, process_udp_read,
}
use tap_tunnel.Stack.Listeners.{◌>>=◌}
use tap_tunnel.Stack.Commands.{handle_command}
use tap_tunnel.Stack.Pending.{process_pending, abort_pending}

-- What `tokio::select!` returned for; `command none` is a disconnected command channel.
pub data Event : Type 0 where
  command : Option StackCommand → Event
  write_notified : Event
  timeout : Event

module _ (w : World) where
  -- The state before the loop. `iface0` is the new interface with its default route. The counter of
  -- ephemeral ports is a static of the process: it comes with what other stacks left in it.
  unfoldable pub start_stack : w.Interface → (ephemeral_port : ℕ) → StackConfig → Option (Stack w)
  start_stack iface0 ephemeral_port config = do
    cidr ← w.cidr_new (ip_addr_to_smoltcp config.ip) config.prefix_len
    addrs ← w.push_addr (w.ip_addrs iface0) cidr
    iface ← w.update_ip_addrs iface0 addrs
    some (record {
      config = config;
      iface = iface;
      sockets = w.no_sockets;
      pending = [];
      listeners = [];
      tcp_states = [];
      udp_states = [];
      ephemeral_port = ephemeral_port;
      stats = new_shared;
      replies = [];
    })

  -- `for (&handle, state) in tcp_states.iter_mut()`, with the function that serves one socket.
  unfoldable pub each_tcp :
      (w.TcpSocket → TcpSocketState w → Option (w.TcpSocket × TcpSocketState w))
      → Map (TcpSocketState w)
      → w.SocketSet
      → Option (Map (TcpSocketState w) × w.SocketSet)
  each_tcp serve [] sockets = some ([], sockets)
  each_tcp serve ((h, st) ∷ rest) sockets = do
    socket ← w.get_tcp sockets h
    (socket', st') ← serve socket st
    (rest', sockets') ← each_tcp serve rest (w.put_tcp sockets h socket')
    some ((h, st') ∷ rest', sockets')

  unfoldable pub each_udp :
      (w.UdpSocket
        → UdpSocketState w
        → TunnelStats
        → Option (w.UdpSocket × UdpSocketState w × TunnelStats))
      → Map (UdpSocketState w)
      → w.SocketSet
      → TunnelStats
      → Option (Map (UdpSocketState w) × w.SocketSet × TunnelStats)
  each_udp serve [] sockets stats = some ([], sockets, stats)
  each_udp serve ((h, st) ∷ rest) sockets stats = do
    socket ← w.get_udp sockets h
    (socket', st', stats') ← serve socket st stats
    (rest', sockets', stats'') ← each_udp serve rest (w.put_udp sockets h socket') stats'
    some ((h, st') ∷ rest', sockets', stats'')

  -- The two loops, over the TCP and over the UDP sockets, of `poll_write_channels` and
  -- `poll_read_channels`.
  unfoldable pub poll_channels :
      (w.TcpSocket → TcpSocketState w → Option (w.TcpSocket × TcpSocketState w))
      → (w.UdpSocket
          → UdpSocketState w
          → TunnelStats
          → Option (w.UdpSocket × UdpSocketState w × TunnelStats))
      → Stack w
      → Option (Stack w)
  poll_channels serve_tcp serve_udp s = do
    (tcp_states, sockets) ← each_tcp serve_tcp s.tcp_states s.sockets
    (udp_states, sockets', stats) ← each_udp serve_udp s.udp_states sockets s.stats
    some (record s {
      sockets = sockets';
      tcp_states = tcp_states;
      udp_states = udp_states;
      stats = stats;
    })

  unfoldable pub poll_write_channels : ℕ → Stack w → Option (Stack w)
  unfolding poll_channels
  poll_write_channels fuel = poll_channels (process_tcp_write w fuel) (process_udp_write w fuel)

  unfoldable pub poll_read_channels : ℕ → Stack w → Option (Stack w)
  unfolding poll_channels
  poll_read_channels fuel = poll_channels (process_tcp_read w fuel) (process_udp_read w fuel)

  -- `for _ in 0..INGRESS_BATCH_SIZE`; the Boolean is `socket_state_changed`.
  unfoldable pub poll_ingress : ℕ → Bool → w.Device → Stack w → Bool × w.Device × Stack w
  poll_ingress zero changed device s = (changed, device, s)
  poll_ingress (suc n) changed device s =
      let (result, iface, device', sockets) = w.poll_ingress_single s.iface device s.sockets in
      let s' = record s { iface = iface; sockets = sockets } in
      elim result [
        | idle ↦ (changed, device', s')
        | packet_processed ↦ poll_ingress n changed device' s'
        | socket_state_changed ↦ poll_ingress n true device' s'
      ]

  -- How a pass ends: with the next one, or with the return of `run_stack`.
  pub data Pass : Type 0 where
    continues : w.Device → Stack w → Pass
    returns : Stack w → Pass

  unfoldable pub end_pass : (ipc_dead : Bool) → w.Device → Stack w → Pass
  end_pass true device s = returns (abort_pending w s)
  end_pass false device s = continues device s

  -- From `poll_write_channels` to the end of the loop's body.
  unfoldable pub poll_pass : ℕ → (ipc_dead : Bool) → w.Device → Stack w → Option Pass
  unfolding end_pass
  poll_pass fuel ipc_dead device s = do
    s1 ← poll_write_channels fuel s
    let (changed, device', s2) = poll_ingress ingress_batch_size false device s1
    let (sent, iface, device'', sockets) = w.poll_egress s2.iface device' s2.sockets
    s3 ← poll_read_channels fuel (record s2 { iface = iface; sockets = sockets })
    s4 ← elim (changed || sent) [ true ↦ process_pending w s3 | false ↦ some s3 ]
    some (end_pass ipc_dead device'' s4)

  unfoldable pub pass : ℕ → Event → (ipc_dead : Bool) → w.Device → Stack w → Option Pass
  unfolding poll_pass
  pass fuel (command none) ipc_dead device s = some (returns s)
  pass fuel (command (some c)) ipc_dead device s = do
    s' ← handle_command w c s
    poll_pass fuel ipc_dead device s'
  pass fuel write_notified ipc_dead device s = poll_pass fuel ipc_dead device s
  pass fuel timeout ipc_dead device s = poll_pass fuel ipc_dead device s
