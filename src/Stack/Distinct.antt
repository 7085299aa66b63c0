-- ===== src/Stack/Distinct.antt =====
-- Every handler of src/stack/mod.rs leaves at most one listener on a port.
use mathlib.Core.Path.{subst}
use tap_tunnel.Prelude.{
  ℕ, ◌≡◌, refl, sym, ap, ◌∙◌, false, Option, none, some, List, [], ◌∷◌, ◌==◌, leb, ◌^◌, arith,
  Bool-cases, Option-cases, inl, inr, ◌⊎◌, String,
}
use tap_tunnel.Net.{SocketAddr, IpAddr, port}
use tap_tunnel.Map
use tap_tunnel.Map.{Map}
use tap_tunnel.Stack.State.{
  World, Stack, StackCommand, ListenerState, tcp_connect, tcp_listen, tcp_accept,
  tcp_listener_close, tcp_close, udp_bind, udp_close, add_ip, remove_ip, get_ips, send,
  allocate_ephemeral_port, create_tcp_channels, create_udp_channels,
}
use tap_tunnel.Stack.Listeners.{
  port_in_use, handle_tcp_listen, finish_listen, handle_tcp_accept, accepted, try_accept_socket,
  replace_listener, find_established, handle_tcp_listener_close, remove_at, close_listening,
}
use tap_tunnel.Stack.Commands.{
  handle_command, handle_tcp_connect, finish_connect, handle_tcp_close, handle_udp_bind,
  finish_bind, udp_port, handle_udp_close, handle_add_ip, handle_remove_ip, handle_get_ips,
}
use tap_tunnel.Stack.Ports.{IsDistinct, IsDistinct-remove, IsDistinct-update, port_in_use-remove}

some-inj {ℓ} : {A : Type ℓ} {x y : A} → some x ≡ some y → x ≡ y
some-inj e = cc

module _ (w : World) where
  abbrev pub KeepsDistinct : Stack w → Option (Stack w) → Type 0
  KeepsDistinct s r =
      (s' : Stack w) → r ≡ some s' → IsDistinct s.listeners → IsDistinct s'.listeners

  -- A handler that leaves the listeners as they are.
  kept :
      (s t s' : Stack w)
      → t.listeners ≡ s.listeners
      → some t ≡ some s'
      → IsDistinct s.listeners
      → IsDistinct s'.listeners
  kept s t s' same e d = subst IsDistinct (sym same ∙ ap (λ u. u.listeners) (some-inj e)) d

  same_listeners :
      (s s' : Stack w)
      → s'.listeners ≡ s.listeners
      → IsDistinct s.listeners
      → IsDistinct s'.listeners
  same_listeners s s' e d = subst IsDistinct (sym e) d

  finish_listen-IsDistinct :
      (s s' : Stack w) (addr : SocketAddr) (response : ℕ)
      (r : (String × w.SocketSet) ⊎ (w.SocketSet × List ℕ))
      → port_in_use (port addr) s.listeners ≡ false
      → finish_listen w s addr response r ≡ some s'
      → IsDistinct s.listeners
      → IsDistinct s'.listeners
  unfolding finish_listen send Map.insert
  finish_listen-IsDistinct s s' addr response (inl (e, sockets)) free ran d = kept s _ s' refl ran d
  finish_listen-IsDistinct s s' addr response (inr (sockets, [])) free ran d = absurd cc
  finish_listen-IsDistinct s s' addr response (inr (sockets, h ∷ hs)) free ran d =
      subst IsDistinct (ap (λ u. u.listeners) (some-inj ran))
        (port_in_use-remove (port addr) h s.listeners free, IsDistinct-remove h s.listeners d)

  handle_tcp_listen-IsDistinct :
      (addr : SocketAddr) (backlog response : ℕ) (s s' : Stack w)
      → handle_tcp_listen w addr backlog response s ≡ some s'
      → IsDistinct s.listeners
      → IsDistinct s'.listeners
  unfolding handle_tcp_listen send
  handle_tcp_listen-IsDistinct addr backlog response s s' ran d =
      elim (Bool-cases (port addr == 0)) [
        | inl zero_port ↦ kept s _ s' refl (rw zero_port at ran) d
        | inr given ↦ elim (Bool-cases (port_in_use (port addr) s.listeners)) [
          | inl taken ↦ kept s _ s' refl (rw (given, taken) at ran) d
          | inr free ↦ elim (Bool-cases (leb (2 ^ 60) backlog)) [
            | inl large ↦ absurd (ground arith)
            | inr few ↦
                finish_listen-IsDistinct s s' addr response _ free (rw (given, free, few) at ran) d
          ]
        ]
      ]

  replace_listener-addr :
      (state : ListenerState) (sockets : w.SocketSet)
      → (replace_listener w state sockets).1.addr ≡ state.addr
  unfolding replace_listener
  replace_listener-addr state sockets = ground arith

  try_accept_socket-addr :
      (sockets sockets' : w.SocketSet) (state state' : ListenerState)
      (found : Option (ℕ × SocketAddr × SocketAddr))
      → try_accept_socket w sockets state ≡ some (found, sockets', state')
      → state'.addr ≡ state.addr
  unfolding try_accept_socket
  try_accept_socket-addr sockets sockets' state state' found ran =
      elim (Option-cases (find_established w state sockets 0 state.listening_handles)) [
        | inl panic ↦ absurd (ground arith)
        | inr (none, nobody) ↦ ground arith
        | inr (some (idx, local, peer), somebody) ↦ ground (
          arith,
          replace_listener-addr
              (record state { listening_handles = remove_at idx state.listening_handles }) sockets,
        )
      ]

  -- A listener goes, or gets a new state with the same address.
  updated :
      (h : ℕ) (old new : ListenerState) (s s' : Stack w)
      → Map.get h s.listeners ≡ some old
      → new.addr ≡ old.addr
      → s'.listeners ≡ Map.insert h new s.listeners
      → IsDistinct s.listeners
      → IsDistinct s'.listeners
  updated h old new s s' got same e d =
      subst IsDistinct (sym e) (IsDistinct-update h old new s.listeners got same d)

  handle_tcp_accept-IsDistinct :
      (h response : ℕ) (s s' : Stack w)
      → handle_tcp_accept w h response s ≡ some s'
      → IsDistinct s.listeners
      → IsDistinct s'.listeners
  unfolding handle_tcp_accept send accepted
  handle_tcp_accept-IsDistinct h response s s' ran d = elim (Option-cases (Map.get h s.listeners)) [
    | inl nobody ↦ same_listeners s s' (ground arith) d
    | inr (state, got) ↦ elim (Option-cases (try_accept_socket w s.sockets state)) [
      | inl panic ↦ absurd (ground arith)
      | inr ((none, sockets, state'), tried) ↦
          updated h state state' s s' got
            (try_accept_socket-addr s.sockets sockets state state' none tried) (ground arith) d
      | inr ((some found, sockets, state'), tried) ↦
          updated h state state' s s' got
            (try_accept_socket-addr s.sockets sockets state state' (some found) tried)
            (ground arith) d
    ]
  ]

  handle_tcp_listener_close-IsDistinct :
      (h : ℕ) (s s' : Stack w)
      → handle_tcp_listener_close w h s ≡ some s'
      → IsDistinct s.listeners
      → IsDistinct s'.listeners
  unfolding handle_tcp_listener_close
  handle_tcp_listener_close-IsDistinct h s s' ran d = elim (Option-cases (Map.get h s.listeners)) [
    | inl nobody ↦ same_listeners s s' (ground arith) d
    | inr (state, got) ↦ elim (Option-cases (close_listening w s.sockets state.listening_handles)) [
      | inl panic ↦ absurd (ground arith)
      | inr (sockets, closed) ↦
          let e : s'.listeners ≡ Map.remove h s.listeners = ground arith in
          subst IsDistinct (sym e) (IsDistinct-remove h s.listeners d)
    ]
  ]

  handle_tcp_connect-listeners :
      (local_ip : Option IpAddr) (addr : SocketAddr) (response : ℕ) (s s' : Stack w)
      → handle_tcp_connect w local_ip addr response s ≡ some s'
      → s'.listeners ≡ s.listeners
  unfolding handle_tcp_connect finish_connect allocate_ephemeral_port send create_tcp_channels
  handle_tcp_connect-listeners local_ip addr response s s' ran = ground arith

  handle_udp_bind-listeners :
      (addr : SocketAddr) (response : ℕ) (s : Stack w)
      → (handle_udp_bind w addr response s).listeners ≡ s.listeners
  unfolding handle_udp_bind finish_bind udp_port allocate_ephemeral_port send create_udp_channels
  handle_udp_bind-listeners addr response s = ground arith

  handle_add_ip-listeners :
      (ip : IpAddr) (n response : ℕ) (s s' : Stack w)
      → handle_add_ip w ip n response s ≡ some s'
      → s'.listeners ≡ s.listeners
  unfolding handle_add_ip send
  handle_add_ip-listeners ip n response s s' ran = ground arith

  handle_remove_ip-listeners :
      (ip : IpAddr) (response : ℕ) (s s' : Stack w)
      → handle_remove_ip w ip response s ≡ some s'
      → s'.listeners ≡ s.listeners
  unfolding handle_remove_ip send
  handle_remove_ip-listeners ip response s s' ran = ground arith

  -- A command that the stack task handles leaves at most one listener on each port, if there was at
  -- most one before.
  pub handle_command-IsDistinct :
      (c : StackCommand) (s s' : Stack w)
      → handle_command w c s ≡ some s'
      → IsDistinct s.listeners
      → IsDistinct s'.listeners
  unfolding handle_command
  handle_command-IsDistinct (tcp_connect local_ip addr response) s s' ran d =
      same_listeners s s' (handle_tcp_connect-listeners local_ip addr response s s' ran) d
  handle_command-IsDistinct (tcp_listen addr backlog response) s s' ran d =
      handle_tcp_listen-IsDistinct addr backlog response s s' ran d
  handle_command-IsDistinct (tcp_accept h response) s s' ran d =
      handle_tcp_accept-IsDistinct h response s s' ran d
  handle_command-IsDistinct (tcp_listener_close h) s s' ran d =
      handle_tcp_listener_close-IsDistinct h s s' ran d
  handle_command-IsDistinct (tcp_close h) s s' ran d =
      same_listeners s s' (unfold handle_tcp_close in ground arith) d
  handle_command-IsDistinct (udp_bind addr response) s s' ran d =
      same_listeners s s'
        (sym (ap (λ u. u.listeners) (some-inj ran)) ∙ handle_udp_bind-listeners addr response s) d
  handle_command-IsDistinct (udp_close h) s s' ran d =
      same_listeners s s' (unfold handle_udp_close in ground arith) d
  handle_command-IsDistinct (add_ip ip n response) s s' ran d =
      same_listeners s s' (handle_add_ip-listeners ip n response s s' ran) d
  handle_command-IsDistinct (remove_ip ip response) s s' ran d =
      same_listeners s s' (handle_remove_ip-listeners ip response s s' ran) d
  handle_command-IsDistinct (get_ips response) s s' ran d =
      same_listeners s s' (unfold handle_get_ips send in ground arith) d
