-- ===== src/Stack/Binding.antt =====
-- `handle_udp_bind` and `handle_tcp_connect` of src/stack/mod.rs do not panic on a handle, and leave
-- every handle in the stack's maps with its socket.
use mathlib.Core.Option.{get_or}
use tap_tunnel.Prelude.{
  ℕ, ◌+◌, ◌%◌, ◌^◌, ◌≡◌, refl, ◌==◌, Option, none, some, Bool-cases, inl, inr, arith, String,
}
use tap_tunnel.Net.{SocketAddr, IpAddr, port, socket_addr_to_endpoint, ip_addr_to_smoltcp}
use tap_tunnel.Map
use tap_tunnel.Map.{Map, All-insert, All-remove}
use tap_tunnel.Stack.Smoltcp.{SetLaws}
use tap_tunnel.Stack.State.{
  World, Stack, send, allocate_ephemeral_port, create_udp_channels, tcp_socket_buffer_size,
}
use tap_tunnel.Stack.Commands.{
  finish_connect, handle_tcp_connect, finish_bind, handle_udp_bind, udp_port,
}
use tap_tunnel.Stack.Live.{
  TcpLive, UdpLive, OpLive, IsLive, Grows, Grows-trans, LiveParts-grow, Grows-add_tcp,
  Grows-add_udp, TcpLive-add_tcp, UdpLive-add_udp, Grows-put_tcp, Grows-remove,
}
use tap_tunnel.Stack.Safety.{Safe}

module _ (w : World) (laws : SetLaws w.net) where
  open laws use {fresh_tcp, get_tcp-put_tcp}

  finish_bind-IsLive :
      (s : Stack w) (addr : SocketAddr) (response : ℕ) (error : Option String)
      (socket : w.UdpSocket)
      → IsLive w s
      → IsLive w (finish_bind w s addr response (error, socket))
  unfolding finish_bind send Map.insert
  finish_bind-IsLive s addr response (some e) socket v = v
  finish_bind-IsLive s addr response none socket v =
      let set = (w.add_udp s.sockets socket).1 in
      let grown = LiveParts-grow w (Grows-add_udp w laws s.sockets socket) v in
      record {
        tcp = grown.tcp;
        udp =
            All-insert (λ e. UdpLive w set e.0) (w.add_udp s.sockets socket).0
              (create_udp_channels w).1 s.udp_states
              (socket, UdpLive-add_udp w laws s.sockets socket) grown.udp;
        ops = grown.ops;
        backlogs = grown.backlogs;
      }

  udp_port-IsLive : (addr : SocketAddr) (s : Stack w) → IsLive w s → IsLive w (udp_port w addr s).1
  unfolding udp_port allocate_ephemeral_port
  udp_port-IsLive addr s v = elim (Bool-cases (port addr == 0)) [
    | inl wild ↦ rw wild v
    | inr given ↦ rw given v
  ]

  -- Binding a UDP socket leaves every handle in the stack's maps with its socket, if each had one
  -- before, whether smoltcp takes the address or not.
  pub handle_udp_bind-IsLive :
      (addr : SocketAddr) (response : ℕ) (s : Stack w)
      → IsLive w s
      → IsLive w (handle_udp_bind w addr response s)
  unfolding handle_udp_bind
  handle_udp_bind-IsLive addr response s v =
      finish_bind-IsLive (udp_port w addr s).1 _ response _ _ (udp_port-IsLive addr s v)

  -- The socket set after a connect that failed.
  undone :
      (old : w.SocketSet) (x y : w.TcpSocket)
      → Grows w old (
          w.remove_socket (w.put_tcp (w.add_tcp old x).1 (w.add_tcp old x).0 y) (w.add_tcp old x).0)
  undone old x y = Grows-remove w laws old _ (w.add_tcp old x).0 (fresh_tcp old x) (
      Grows-trans w (Grows-add_tcp w laws old x) (
        Grows-put_tcp w laws (w.add_tcp old x).1 (w.add_tcp old x).0 y
          (x, TcpLive-add_tcp w laws old x)))

  finish_connect-IsLive :
      (s : Stack w) (n : ℕ) (x y : w.TcpSocket) (ip : IpAddr) (p : ℕ) (addr : SocketAddr)
      (response : ℕ) (error : Option String) (iface : w.Interface)
      → IsLive w s
      → IsLive w (
          finish_connect w
            (record s { sockets = (w.add_tcp s.sockets x).1; ephemeral_port = n })
            (w.add_tcp s.sockets x).0
            ip
            p
            addr
            response
            (error, y, iface))
  unfolding finish_connect send Map.insert
  finish_connect-IsLive s n x y ip p addr response (some e) iface v =
      LiveParts-grow w (undone s.sockets x y) v
  finish_connect-IsLive s n x y ip p addr response none iface v =
      let h = (w.add_tcp s.sockets x).0 in
      let added = (w.add_tcp s.sockets x).1 in
      let set = w.put_tcp added h y in
      let there : w.get_tcp set h ≡ some y = ground (arith, get_tcp-put_tcp added h y h) in
      let grown =
        LiveParts-grow w
          (Grows-trans w (Grows-add_tcp w laws s.sockets x)
            (Grows-put_tcp w laws added h y (x, TcpLive-add_tcp w laws s.sockets x)))
          v in
      record {
        tcp = ((y, there), All-remove (λ e. TcpLive w set e.0) h s.tcp_states grown.tcp);
        udp = grown.udp;
        ops = ((y, there), All-remove (OpLive w set) h s.pending grown.ops);
        backlogs = grown.backlogs;
      }

  -- A connect does not panic on a handle, and leaves every handle in the stack's maps with its
  -- socket, if each had one before, whether smoltcp starts the connection or refuses to.
  pub handle_tcp_connect-Safe :
      (local_ip : Option IpAddr) (addr : SocketAddr) (response : ℕ) (s : Stack w)
      → IsLive w s
      → Safe w (handle_tcp_connect w local_ip addr response s)
  unfolding handle_tcp_connect allocate_ephemeral_port
  handle_tcp_connect-Safe local_ip addr response s v =
      let x = w.tcp_new tcp_socket_buffer_size tcp_socket_buffer_size in
      let source_ip = get_or local_ip s.config.ip in
      let next = (s.ephemeral_port + 1) % 2 ^ 16 in
      let connected =
        w.connect x s.iface (socket_addr_to_endpoint addr)
          (record { addr = some (ip_addr_to_smoltcp source_ip); port = s.ephemeral_port }) in
      (
        finish_connect w (record s { sockets = (w.add_tcp s.sockets x).1; ephemeral_port = next })
            (w.add_tcp s.sockets x).0 source_ip s.ephemeral_port addr response connected,
        rw (TcpLive-add_tcp w laws s.sockets x) refl,
        finish_connect-IsLive s next x connected.1 source_ip s.ephemeral_port addr response
            connected.0 connected.2 v,
      )
