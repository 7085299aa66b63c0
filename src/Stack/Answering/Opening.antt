-- ===== src/Stack/Answering/Opening.antt =====
-- The answers to the commands of src/stack/mod.rs that open a socket.
use mathlib.Core.Option.{get_or}
use Prim.Native.String.{◌++◌ as str_append}
use tap_tunnel.Prelude.{
  ℕ, ◌==◌, leb, ◌^◌, ◌≡◌, refl, ap, Option, some, none, List, [], ◌∷◌, ◌++◌, arith, Bool-cases, inl,
  inr, ◌⊎◌, String, if◌then◌else◌,
}
use tap_tunnel.Io.{io_error, other, addr_in_use, invalid_input}
use tap_tunnel.Net.{
  IpAddr, SocketAddr, port, IpListenEndpoint, ip_addr_to_smoltcp, socket_addr_to_endpoint,
  make_socket_addr, socket_addr_to_listen_endpoint,
}
use tap_tunnel.Stack.State.{
  World, Stack, StackCommand, PendingOp, listening, bound, failed, send, tcp_listen, udp_bind,
  create_tcp_channels, create_udp_channels, allocate_ephemeral_port, tcp_socket_buffer_size,
}
use tap_tunnel.Stack.Listeners.{port_in_use, listen_loop, finish_listen, handle_tcp_listen}
use tap_tunnel.Stack.Commands.{
  finish_connect, handle_tcp_connect, finish_bind, udp_port, with_port, handle_udp_bind,
}
use tap_tunnel.Stack.Answering.{Answered, get-inserted, bind-Answered}

module _ (w : World) where
  finish_connect-Answered :
      (local_ip : Option IpAddr) (s0 s : Stack w) (h : ℕ) (source : IpAddr) (p : ℕ)
      (addr : SocketAddr) (response : ℕ) (r : Option String × w.TcpSocket × w.Interface)
      → s.replies ≡ s0.replies
      → Answered w
          (StackCommand.tcp_connect local_ip addr response)
          s0
          (some (finish_connect w s h source p addr response r))
  unfolding finish_connect send
  finish_connect-Answered local_ip s0 s h source p addr response (some e, socket, iface) same =
      inl (
        failed (io_error other (str_append "connect failed: " e)),
        ap (λ rs. rs ++ (response, failed (io_error other (str_append "connect failed: " e))) ∷ [])
            same,
        tt,
      )
  finish_connect-Answered local_ip s0 s h source p addr response (none, socket, iface) same = inr (
    same,
    (
      h,
      make_socket_addr source p,
      (create_tcp_channels w).0,
      get-inserted w h
          (PendingOp.tcp_connect (make_socket_addr source p) addr (create_tcp_channels w).0
            response)
          s.pending,
    ),
  )

  finish_listen-Answered :
      (backlog : ℕ) (s : Stack w) (addr : SocketAddr) (response : ℕ)
      (r : (String × w.SocketSet) ⊎ (w.SocketSet × List ℕ))
      → Answered w (tcp_listen addr backlog response) s (finish_listen w s addr response r)
  unfolding finish_listen send
  finish_listen-Answered backlog s addr response (inl (e, sockets)) =
      inl (failed (io_error addr_in_use (str_append "listen failed: " e)), refl, tt)
  finish_listen-Answered backlog s addr response (inr (sockets, [])) = tt
  finish_listen-Answered backlog s addr response (inr (sockets, h ∷ hs)) =
      inl (listening h addr, refl, tt)

  finish_bind-Answered :
      (addr : SocketAddr) (s0 s : Stack w) (a : SocketAddr) (response : ℕ)
      (r : Option String × w.UdpSocket)
      → s.replies ≡ s0.replies
      → Answered w (udp_bind addr response) s0 (some (finish_bind w s a response r))
  unfolding finish_bind send
  finish_bind-Answered addr s0 s a response (some e, socket) same = inl (
    failed (io_error addr_in_use (str_append "bind failed: " e)),
    ap (λ rs. rs ++ (response, failed (io_error addr_in_use (str_append "bind failed: " e))) ∷ [])
        same,
    tt,
  )
  finish_bind-Answered addr s0 s a response (none, socket) same = inl (
    bound (w.add_udp s.sockets socket).0 a (create_udp_channels w).0,
    ap
        (λ rs.
          rs ++ (response, bound (w.add_udp s.sockets socket).0 a (create_udp_channels w).0) ∷ [])
        same,
    tt,
  )

  pub handle_tcp_connect-Answered :
      (local_ip : Option IpAddr) (addr : SocketAddr) (response : ℕ) (s : Stack w)
      → Answered w
          (StackCommand.tcp_connect local_ip addr response)
          s
          (handle_tcp_connect w local_ip addr response s)
  unfolding handle_tcp_connect allocate_ephemeral_port
  handle_tcp_connect-Answered local_ip addr response s =
      let made = w.add_tcp s.sockets (w.tcp_new tcp_socket_buffer_size tcp_socket_buffer_size) in
      let source = get_or local_ip s.config.ip in
      let (p, s1) = allocate_ephemeral_port w (record s { sockets = made.1 }) in
      let local : IpListenEndpoint = record { addr = some (ip_addr_to_smoltcp source); port = p } in
      let connected : w.TcpSocket → Option String × w.TcpSocket × w.Interface =
        λ x. w.connect x s1.iface (socket_addr_to_endpoint addr) local in
      bind-Answered w (StackCommand.tcp_connect local_ip addr response) s (w.get_tcp made.1 made.0)
        (λ x. finish_connect w s1 made.0 source p addr response (connected x))
        (λ x.
          finish_connect-Answered local_ip s s1 made.0 source p addr response (connected x) refl)

  pub handle_tcp_listen-Answered :
      (addr : SocketAddr) (backlog response : ℕ) (s : Stack w)
      → Answered w
          (tcp_listen addr backlog response)
          s
          (handle_tcp_listen w addr backlog response s)
  unfolding handle_tcp_listen send
  handle_tcp_listen-Answered addr backlog response s = elim (Bool-cases (port addr == 0)) [
    | inl zero_port ↦
        rw zero_port (inl (failed (io_error invalid_input "cannot listen on port 0"), refl, tt))
    | inr other_port ↦ elim (Bool-cases (port_in_use (port addr) s.listeners)) [
      | inl taken ↦
          rw (other_port, taken)
            (inl (failed (io_error addr_in_use "address already in use"), refl, tt))
      | inr free ↦ elim (Bool-cases (leb (2 ^ 60) backlog)) [
        | inl large ↦ rw (other_port, free, large) tt
        | inr few ↦
            rw (other_port, free, few)
              (finish_listen-Answered backlog s addr response (
                listen_loop w (if backlog == 0 then 1 else backlog)
                  (socket_addr_to_listen_endpoint addr) s.sockets []))
      ]
    ]
  ]

  udp_port-replies : (addr : SocketAddr) (s : Stack w) → (udp_port w addr s).1.replies ≡ s.replies
  unfolding udp_port allocate_ephemeral_port
  udp_port-replies addr s = ground arith

  pub handle_udp_bind-Answered :
      (addr : SocketAddr) (response : ℕ) (s : Stack w)
      → Answered w (udp_bind addr response) s (some (handle_udp_bind w addr response s))
  unfolding handle_udp_bind
  handle_udp_bind-Answered addr response s =
      finish_bind-Answered addr s (udp_port w addr s).1 (with_port w addr (udp_port w addr s).0)
        response _ (udp_port-replies addr s)
