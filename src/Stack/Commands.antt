-- ===== src/Stack/Commands.antt =====
-- The command handlers of src/stack/mod.rs, and `handle_command`, which is not `none` unless a call
-- into smoltcp panics.
use Prim.Native.String.{◌++◌ as str_append}
use mathlib.Core.Option.{get_or}
use tap_tunnel.Prelude.{
  ℕ, Bool, true, false, ◌&&◌, Option, none, some, List, [], ◌∷◌, ◌==◌, if◌then◌else◌, String,
}
use tap_tunnel.Io.{io_error, other, addr_in_use, out_of_memory}
use tap_tunnel.Net.{
  IpAddr, SocketAddr, socket_v4, socket_v6, port, ip, IpAddress, IpAddress-discrete,
  IpListenEndpoint, ip_addr_to_smoltcp, smoltcp_to_ip_addr, make_socket_addr,
  socket_addr_to_endpoint, socket_addr_to_listen_endpoint_with_port,
}
use tap_tunnel.Map
use tap_tunnel.Stack.Smoltcp.{IpCidr}
use tap_tunnel.Stack.State.{
  World, Stack, StackCommand, PendingOp, tcp_listen, tcp_listener_close, tcp_close, udp_bind,
  udp_close, add_ip, remove_ip, get_ips, bound, done, ips, failed, send, create_tcp_channels,
  create_udp_channels, allocate_ephemeral_port, tcp_socket_buffer_size, udp_packet_buffer_size,
  udp_packet_metadata_slots,
}
use tap_tunnel.Stack.Listeners.{
  ◌>>=◌, handle_tcp_listen, handle_tcp_accept, handle_tcp_listener_close,
}

-- `==` on smoltcp's addresses and blocks
unfoldable pub same_address : IpAddress → IpAddress → Bool
same_address a b = elim (IpAddress-discrete a b) [ yes e ↦ true | no e ↦ false ]

unfoldable pub same_cidr : IpCidr → IpCidr → Bool
unfolding same_address
same_cidr a b = same_address a.address b.address && a.prefix_len == b.prefix_len

-- `iface.ip_addrs().iter().any(|a| a == &cidr)`
unfoldable pub has_cidr : IpCidr → List IpCidr → Bool
has_cidr c [] = false
has_cidr c (a ∷ rest) = if same_cidr a c then true else has_cidr c rest

-- `addrs.retain(|a| a.address() != target)`
unfoldable pub without_address : IpAddress → List IpCidr → List IpCidr
without_address target [] = []
without_address target (a ∷ rest) =
    let kept = without_address target rest in
    if same_address a.address target then kept else a ∷ kept

unfoldable pub ips_of : List IpCidr → List (IpAddr × ℕ)
ips_of [] = []
ips_of (cidr ∷ rest) = (smoltcp_to_ip_addr cidr.address, cidr.prefix_len) ∷ ips_of rest

module _ (w : World) where
  -- After `socket.connect`: its error, the socket, and the interface.
  unfoldable pub finish_connect :
      Stack w
      → (handle : ℕ) (source_ip : IpAddr) (local_port : ℕ) (addr : SocketAddr) (response : ℕ)
      → Option String × w.TcpSocket × w.Interface
      → Stack w
  unfolding send create_tcp_channels
  finish_connect s handle source_ip local_port addr response (error, socket, iface) = elim error [
    | some e ↦
        send w
          (record s {
            iface = iface;
            sockets = w.remove_socket (w.put_tcp s.sockets handle socket) handle;
          })
          response (failed (io_error other (str_append "connect failed: " e)))
    | none ↦
        let (channels, state) = create_tcp_channels w in
        record s {
          iface = iface;
          sockets = w.put_tcp s.sockets handle socket;
          tcp_states = Map.insert handle state s.tcp_states;
          pending =
              Map.insert handle
                (PendingOp.tcp_connect (make_socket_addr source_ip local_port) addr channels
                  response)
                s.pending;
        }
  ]

  unfoldable pub handle_tcp_connect : Option IpAddr → SocketAddr → ℕ → Stack w → Option (Stack w)
  unfolding finish_connect allocate_ephemeral_port
  handle_tcp_connect local_ip addr response s0 =
      let (handle, sockets) =
        w.add_tcp s0.sockets (w.tcp_new tcp_socket_buffer_size tcp_socket_buffer_size) in
      let source_ip = get_or local_ip s0.config.ip in
      let (local_port, s) = allocate_ephemeral_port w (record s0 { sockets = sockets }) in
      let local : IpListenEndpoint = record {
        addr = some (ip_addr_to_smoltcp source_ip);
        port = local_port;
      } in
      do
        socket ← w.get_tcp sockets handle
        some (
            finish_connect s handle source_ip local_port addr response
              (w.connect socket s.iface (socket_addr_to_endpoint addr) local))

  unfoldable pub handle_tcp_close : ℕ → Stack w → Option (Stack w)
  handle_tcp_close handle s = do
    socket ← w.get_tcp s.sockets handle
    some (record s {
      sockets = w.put_tcp s.sockets handle (w.tcp_close socket);
      tcp_states = Map.remove handle s.tcp_states;
    })

  unfoldable pub with_port : SocketAddr → ℕ → SocketAddr
  with_port (socket_v4 a old) p = socket_v4 a p
  with_port (socket_v6 a old flowinfo scope_id) p = socket_v6 a p 0 0

  -- The port to bind: an ephemeral one for port 0.
  unfoldable pub udp_port : SocketAddr → Stack w → ℕ × Stack w
  unfolding allocate_ephemeral_port
  udp_port addr s = if port addr == 0 then allocate_ephemeral_port w s else (port addr, s)

  unfoldable pub finish_bind :
      Stack w → SocketAddr → (response : ℕ) → Option String × w.UdpSocket → Stack w
  unfolding send create_udp_channels
  finish_bind s bound_addr response (error, socket) = elim error [
    | some e ↦ send w s response (failed (io_error addr_in_use (str_append "bind failed: " e)))
    | none ↦
        let (handle, sockets) = w.add_udp s.sockets socket in
        let (channels, state) = create_udp_channels w in
        send w (record s { sockets = sockets; udp_states = Map.insert handle state s.udp_states })
          response (bound handle bound_addr channels)
  ]

  unfoldable pub handle_udp_bind : SocketAddr → ℕ → Stack w → Stack w
  unfolding finish_bind udp_port with_port
  handle_udp_bind addr response s0 =
      let (p, s) = udp_port addr s0 in
      finish_bind s (with_port addr p) response (
        w.bind (w.udp_new udp_packet_metadata_slots udp_packet_buffer_size)
          (socket_addr_to_listen_endpoint_with_port addr p))

  unfoldable pub handle_udp_close : ℕ → Stack w → Option (Stack w)
  handle_udp_close handle s = do
    socket ← w.get_udp s.sockets handle
    some (record s {
      sockets = w.put_udp s.sockets handle (w.udp_close socket);
      udp_states = Map.remove handle s.udp_states;
    })

  -- `update_ip_addrs` runs its closure and then checks the addresses, also when nothing was added.
  unfoldable pub handle_add_ip : IpAddr → ℕ → ℕ → Stack w → Option (Stack w)
  unfolding send has_cidr
  handle_add_ip ip prefix_len response s = do
    cidr ← w.cidr_new (ip_addr_to_smoltcp ip) prefix_len
    if has_cidr cidr (w.ip_addrs s.iface)
        then some (send w s response done)
        else elim (w.push_addr (w.ip_addrs s.iface) cidr) [
          | some addrs ↦ do
            iface ← w.update_ip_addrs s.iface addrs
            some (send w (record s { iface = iface }) response done)
          | none ↦ do
            iface ← w.update_ip_addrs s.iface (w.ip_addrs s.iface)
            some (
                send w (record s { iface = iface }) response
                  (failed (io_error out_of_memory "address list full")))
        ]

  unfoldable pub handle_remove_ip : IpAddr → ℕ → Stack w → Option (Stack w)
  unfolding send without_address
  handle_remove_ip ip response s = do
    iface ← w.update_ip_addrs s.iface (without_address (ip_addr_to_smoltcp ip) (w.ip_addrs s.iface))
    some (send w (record s { iface = iface }) response done)

  unfoldable pub handle_get_ips : ℕ → Stack w → Stack w
  unfolding send ips_of
  handle_get_ips response s = send w s response (ips (ips_of (w.ip_addrs s.iface)))

  -- `handle_command` always answers `true`: go on.
  unfoldable pub handle_command : StackCommand → Stack w → Option (Stack w)
  handle_command (StackCommand.tcp_connect local_ip addr response) s =
      handle_tcp_connect local_ip addr response s
  handle_command (tcp_listen addr backlog response) s = handle_tcp_listen w addr backlog response s
  handle_command (StackCommand.tcp_accept handle response) s = handle_tcp_accept w handle response s
  handle_command (tcp_listener_close handle) s = handle_tcp_listener_close w handle s
  handle_command (tcp_close handle) s = handle_tcp_close handle s
  handle_command (udp_bind addr response) s = some (handle_udp_bind addr response s)
  handle_command (udp_close handle) s = handle_udp_close handle s
  handle_command (add_ip ip prefix_len response) s = handle_add_ip ip prefix_len response s
  handle_command (remove_ip ip response) s = handle_remove_ip ip response s
  handle_command (get_ips response) s = some (handle_get_ips response s)
