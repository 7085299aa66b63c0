-- ===== src/Stack/Answering/Commands.antt =====
-- The answers to the commands of src/stack/mod.rs.
use mathlib.Core.Path.{subst}
use tap_tunnel.Prelude.{
  ℕ, ◌≡◌, refl, sym, Option, some, none, arith, Bool-cases, Option-cases, inl, inr,
}
use tap_tunnel.Io.{io_error, invalid_input, out_of_memory}
use tap_tunnel.Net.{IpAddr, SocketAddr, ip_addr_to_smoltcp}
use tap_tunnel.Map
use tap_tunnel.Map.{Map, get-insert}
use tap_tunnel.Stack.State.{
  World, Stack, StackCommand, PendingOp, ListenerState, stream, done, ips, failed, send, tcp_listen,
  tcp_listener_close, tcp_close, udp_bind, udp_close, add_ip, remove_ip, get_ips,
  create_tcp_channels,
}
use tap_tunnel.Stack.Listeners.{
  ◌>>=◌, try_accept_socket, accepted, handle_tcp_accept, handle_tcp_listener_close, close_listening,
}
use tap_tunnel.Stack.Commands.{
  handle_command, handle_tcp_close, handle_udp_close, has_cidr, handle_add_ip, handle_remove_ip,
  without_address, handle_get_ips, ips_of,
}
use tap_tunnel.Stack.Answering.{Answered, get-inserted, bind-Answered}
use tap_tunnel.Stack.Answering.Opening.{
  handle_tcp_connect-Answered, handle_tcp_listen-Answered, handle_udp_bind-Answered,
}

module _ (w : World) where
  handle_tcp_accept-by :
      (h response : ℕ) (s : Stack w) (state : ListenerState)
      (r : Option (Option (ℕ × SocketAddr × SocketAddr) × w.SocketSet × ListenerState))
      → Map.get h s.listeners ≡ some state
      → try_accept_socket w s.sockets state ≡ r
      → Answered w (StackCommand.tcp_accept h response) s (handle_tcp_accept w h response s)
  unfolding handle_tcp_accept send accepted
  handle_tcp_accept-by h response s state none there tried =
      let same : handle_tcp_accept w h response s ≡ none = ground arith in
      subst (Answered w (StackCommand.tcp_accept h response) s) (sym same) tt
  handle_tcp_accept-by h response s state (some (none, sockets, state')) there tried =
      let same : handle_tcp_accept w h response s
          ≡ some (record s {
            sockets = sockets;
            listeners = Map.insert h state' s.listeners;
            pending = Map.insert h (PendingOp.tcp_accept response) s.pending;
          }) =
        ground arith in
      subst (Answered w (StackCommand.tcp_accept h response) s) (sym same)
        (inr (refl, get-inserted w h (PendingOp.tcp_accept response) s.pending))
  handle_tcp_accept-by h response s state (some (some (j, local, peer), sockets, state')) there
        tried =
      let same : handle_tcp_accept w h response s
          ≡ some (
              accepted w
                (record s { sockets = sockets; listeners = Map.insert h state' s.listeners })
                response (j, local, peer)) =
        ground arith in
      subst (Answered w (StackCommand.tcp_accept h response) s) (sym same)
        (inl (stream j local peer (create_tcp_channels w).0, refl, tt))

  handle_tcp_accept-Answered :
      (h response : ℕ) (s : Stack w)
      → Answered w (StackCommand.tcp_accept h response) s (handle_tcp_accept w h response s)
  unfolding handle_tcp_accept send
  handle_tcp_accept-Answered h response s = elim (Option-cases (Map.get h s.listeners)) [
    | inl nobody ↦
        let same : handle_tcp_accept w h response s
            ≡ some (send w s response (failed (io_error invalid_input "not a listener handle"))) =
          ground arith in
        subst (Answered w (StackCommand.tcp_accept h response) s) (sym same)
          (inl (failed (io_error invalid_input "not a listener handle"), refl, tt))
    | inr (state, there) ↦
        handle_tcp_accept-by h response s state (try_accept_socket w s.sockets state) there refl
  ]

  handle_tcp_listener_close-Answered :
      (h : ℕ) (s : Stack w) → Answered w (tcp_listener_close h) s (handle_tcp_listener_close w h s)
  unfolding handle_tcp_listener_close
  handle_tcp_listener_close-Answered h s = by_listener (Map.get h s.listeners)
    where
      by_listener :
          (o : Option ListenerState)
          → Answered w (tcp_listener_close h) s (elim o as (λ _. Option (Stack w)) [
            | none ↦ some (record s { pending = Map.remove h s.pending })
            | some state ↦ close_listening w s.sockets state.listening_handles >>= λ sockets.
                some (record s {
                  sockets = sockets;
                  pending = Map.remove h s.pending;
                  listeners = Map.remove h s.listeners;
                })
          ])
      by_listener none = inr (refl, tt)
      by_listener (some state) =
          bind-Answered w (tcp_listener_close h) s
            (close_listening w s.sockets state.listening_handles) _ (λ sockets. inr (refl, tt))

  handle_add_ip-Answered :
      (ip : IpAddr) (n response : ℕ) (s : Stack w)
      → Answered w (add_ip ip n response) s (handle_add_ip w ip n response s)
  unfolding handle_add_ip send
  handle_add_ip-Answered ip n response s =
      elim (Option-cases (w.cidr_new (ip_addr_to_smoltcp ip) n)) [
        | inl panic ↦
            let same : handle_add_ip w ip n response s ≡ none = ground arith in
            subst (Answered w (add_ip ip n response) s) (sym same) tt
        | inr (cidr, made) ↦ elim (Bool-cases (has_cidr cidr (w.ip_addrs s.iface))) [
          | inl present ↦
              let same : handle_add_ip w ip n response s ≡ some (send w s response done) =
                ground arith in
              subst (Answered w (add_ip ip n response) s) (sym same) (inl (done, refl, tt))
          | inr absent ↦ elim (Option-cases (w.push_addr (w.ip_addrs s.iface) cidr)) [
            | inr (addrs, pushed) ↦
                let same : handle_add_ip w ip n response s ≡ (
                    w.update_ip_addrs s.iface addrs >>= λ iface.
                    some (send w (record s { iface = iface }) response done)) =
                  ground arith in
                subst (Answered w (add_ip ip n response) s) (sym same) (
                  bind-Answered w (add_ip ip n response) s (w.update_ip_addrs s.iface addrs) _
                    (λ iface. inl (done, refl, tt)))
            | inl full ↦
                let same : handle_add_ip w ip n response s ≡ (
                    w.update_ip_addrs s.iface (w.ip_addrs s.iface) >>= λ iface. some (
                      send w (record s { iface = iface }) response
                        (failed (io_error out_of_memory "address list full")))) =
                  ground arith in
                subst (Answered w (add_ip ip n response) s) (sym same) (
                  bind-Answered w (add_ip ip n response) s
                    (w.update_ip_addrs s.iface (w.ip_addrs s.iface)) _
                    (λ iface. inl (failed (io_error out_of_memory "address list full"), refl, tt)))
          ]
        ]
      ]

  -- A command that is handled sends one reply at most, on its own response channel and of a kind
  -- that the channel carries; without a reply, its operation waits in `pending` with that channel. A
  -- command to close something sends none.
  pub handle_command-Answered :
      (c : StackCommand) (s : Stack w) → Answered w c s (handle_command w c s)
  unfolding handle_command handle_tcp_close handle_udp_close handle_remove_ip handle_get_ips send
  handle_command-Answered (StackCommand.tcp_connect local_ip addr response) s =
      handle_tcp_connect-Answered w local_ip addr response s
  handle_command-Answered (tcp_listen addr backlog response) s =
      handle_tcp_listen-Answered w addr backlog response s
  handle_command-Answered (StackCommand.tcp_accept h response) s =
      handle_tcp_accept-Answered h response s
  handle_command-Answered (tcp_listener_close h) s = handle_tcp_listener_close-Answered h s
  handle_command-Answered (tcp_close h) s =
      bind-Answered w (tcp_close h) s (w.get_tcp s.sockets h) _ (λ x. inr (refl, tt))
  handle_command-Answered (udp_bind addr response) s = handle_udp_bind-Answered w addr response s
  handle_command-Answered (udp_close h) s =
      bind-Answered w (udp_close h) s (w.get_udp s.sockets h) _ (λ x. inr (refl, tt))
  handle_command-Answered (add_ip ip n response) s = handle_add_ip-Answered ip n response s
  handle_command-Answered (remove_ip ip response) s =
      bind-Answered w (remove_ip ip response) s
        (w.update_ip_addrs s.iface (without_address (ip_addr_to_smoltcp ip) (w.ip_addrs s.iface))) _
        (λ iface. inl (done, refl, tt))
  handle_command-Answered (get_ips response) s = inl (ips (ips_of (w.ip_addrs s.iface)), refl, tt)
