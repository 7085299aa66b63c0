-- ===== src/Stack/Listeners.antt =====
-- Listening sockets of src/stack/mod.rs: `handle_tcp_listen`, `try_accept_socket`,
-- `handle_tcp_accept` and `handle_tcp_listener_close`. `none` is a panic: of
-- `SocketSet::get_mut`, of `listening_handles[0]` or of `Vec::with_capacity`.
use Prim.Native.String.{◌++◌ as str_append}
use tap_tunnel.Prelude.{
  ℕ, zero, suc, Bool, true, false, Option, none, some, List, [], ◌∷◌, ◌++◌, inl, inr, ◌⊎◌, ◌==◌,
  if◌then◌else◌, String, leb, ◌^◌,
}
use tap_tunnel.Io.{io_error, invalid_input, addr_in_use}
use tap_tunnel.Net.{
  SocketAddr, port, IpListenEndpoint, endpoint_to_socket_addr, socket_addr_to_listen_endpoint,
}
use tap_tunnel.Map
use tap_tunnel.Map.{Map}
use tap_tunnel.Stack.Smoltcp.{TcpState}
use tap_tunnel.Stack.State.{
  World, Stack, ListenerState, PendingOp, listening, stream, failed, send, create_tcp_channels,
  tcp_socket_buffer_size,
}

infixl 5 ◌>>=◌
abbrev pub ◌>>=◌ {ℓ κ} : {A : Type ℓ} {B : Type κ} → Option A → (A → Option B) → Option B
none >>= f = none
some a >>= f = f a

abbrev pub is_established : TcpState → Bool
is_established TcpState.established = true
is_established _ = false

abbrev pub is_listen : TcpState → Bool
is_listen TcpState.listen = true
is_listen _ = false

-- `Vec::remove(idx)`, of an index in range
unfoldable pub remove_at : ℕ → List ℕ → List ℕ
remove_at i [] = []
remove_at zero (x ∷ xs) = xs
remove_at (suc i) (x ∷ xs) = x ∷ remove_at i xs

-- `listeners.values()` has one on this port
unfoldable pub port_in_use : ℕ → Map ListenerState → Bool
port_in_use p [] = false
port_in_use p ((h, state) ∷ rest) = if port state.addr == p then true else port_in_use p rest

module _ (w : World) where
  unfoldable pub remove_sockets : w.SocketSet → List ℕ → w.SocketSet
  remove_sockets sockets [] = sockets
  remove_sockets sockets (h ∷ hs) = remove_sockets (w.remove_socket sockets h) hs

  -- `for _ in 0..backlog`: the handles so far are in `handles`; `inl` is a failed `listen`.
  unfoldable pub listen_loop :
      ℕ → IpListenEndpoint → w.SocketSet → List ℕ → (String × w.SocketSet) ⊎ (w.SocketSet × List ℕ)
  unfolding remove_sockets
  listen_loop zero endpoint sockets handles = inr (sockets, handles)
  listen_loop (suc n) endpoint sockets handles =
      let (error, socket) =
        w.listen_on (w.tcp_new tcp_socket_buffer_size tcp_socket_buffer_size) endpoint in
      let (handle, sockets') = w.add_tcp sockets socket in
      elim error [
        | some e ↦ inl (e, remove_sockets sockets handles)
        | none ↦ listen_loop n endpoint sockets' (handles ++ handle ∷ [])
      ]

  -- The end of `handle_tcp_listen`; `listening_handles[0]` is there, since `backlog` is at least 1.
  unfoldable pub finish_listen :
      Stack w → SocketAddr → ℕ → (String × w.SocketSet) ⊎ (w.SocketSet × List ℕ) → Option (Stack w)
  unfolding send
  finish_listen s addr response (inl (e, sockets)) = some (
      send w (record s { sockets = sockets }) response
        (failed (io_error addr_in_use (str_append "listen failed: " e))))
  finish_listen s addr response (inr (sockets, [])) = none
  finish_listen s addr response (inr (sockets, primary ∷ handles)) = some (
      send w
        (record s {
          sockets = sockets;
          listeners =
              Map.insert primary (record { addr = addr; listening_handles = primary ∷ handles })
                s.listeners;
        })
        response (listening primary addr))

  -- `Vec::with_capacity(backlog)` panics when handles of 8 bytes each, as on a 64-bit target, would
  -- need 2^63 bytes or more.
  unfoldable pub handle_tcp_listen : SocketAddr → ℕ → ℕ → Stack w → Option (Stack w)
  unfolding send finish_listen
  handle_tcp_listen addr backlog response s =
      if port addr == 0
      then some (send w s response (failed (io_error invalid_input "cannot listen on port 0")))
      else if port_in_use (port addr) s.listeners
      then some (send w s response (failed (io_error addr_in_use "address already in use")))
      else if leb (2 ^ 60) backlog
      then none
      else finish_listen s addr response (
          listen_loop (if backlog == 0 then 1 else backlog) (socket_addr_to_listen_endpoint addr)
            s.sockets [])

  -- The first socket that is established and has a remote endpoint: its index, and the local and
  -- the peer address.
  unfoldable pub find_established :
      ListenerState → w.SocketSet → ℕ → List ℕ → Option (Option (ℕ × SocketAddr × SocketAddr))
  find_established state sockets idx [] = some none
  find_established state sockets idx (h ∷ hs) =
      let rest = find_established state sockets (suc idx) hs in
      elim (w.get_tcp sockets h) [
        | none ↦ none
        | some socket ↦ elim (is_established (w.state socket)) [
          | false ↦ rest
          | true ↦ elim (w.remote_endpoint socket) [
            | none ↦ rest
            | some remote ↦ elim (w.local_endpoint socket) [
              | some local ↦
                  some (some (idx, endpoint_to_socket_addr local, endpoint_to_socket_addr remote))
              | none ↦ some (some (idx, state.addr, endpoint_to_socket_addr remote))
            ]
          ]
        ]
      ]

  -- `listening_handles[idx]`
  abbrev pub handle_at : ℕ → List ℕ → ℕ
  handle_at i [] = 0
  handle_at zero (x ∷ xs) = x
  handle_at (suc i) (x ∷ xs) = handle_at i xs

  -- A replacement for an accepted socket, if `listen` succeeds.
  unfoldable pub replace_listener : ListenerState → w.SocketSet → w.SocketSet × ListenerState
  replace_listener state sockets =
      let (error, socket) =
        w.listen_on (w.tcp_new tcp_socket_buffer_size tcp_socket_buffer_size)
          (socket_addr_to_listen_endpoint state.addr) in
      let (handle, sockets') = w.add_tcp sockets socket in
      elim error [
        | none ↦
            (sockets', record state { listening_handles = state.listening_handles ++ handle ∷ [] })
        | some e ↦ (sockets, state)
      ]

  unfoldable pub try_accept_socket :
      w.SocketSet
      → ListenerState
      → Option (Option (ℕ × SocketAddr × SocketAddr) × w.SocketSet × ListenerState)
  unfolding replace_listener
  try_accept_socket sockets state =
      elim (find_established state sockets 0 state.listening_handles) [
        | none ↦ none
        | some none ↦ some (none, sockets, state)
        | some (some (idx, local, peer)) ↦
            let (sockets', state') =
              replace_listener
                (record state { listening_handles = remove_at idx state.listening_handles })
                sockets in
            some (some (handle_at idx state.listening_handles, local, peer), sockets', state')
      ]

  -- The answer to an accept for which a connection is there.
  unfoldable pub accepted : Stack w → ℕ → ℕ × SocketAddr × SocketAddr → Stack w
  unfolding send create_tcp_channels
  accepted s response (handle, local, peer) =
      let (channels, socket_state) = create_tcp_channels w in
      send w (record s { tcp_states = Map.insert handle socket_state s.tcp_states }) response
        (stream handle local peer channels)

  unfoldable pub handle_tcp_accept : ℕ → ℕ → Stack w → Option (Stack w)
  unfolding send accepted
  handle_tcp_accept handle response s = elim (Map.get handle s.listeners) [
    | none ↦ some (send w s response (failed (io_error invalid_input "not a listener handle")))
    | some state ↦ elim (try_accept_socket s.sockets state) [
      | none ↦ none
      | some (none, sockets, state') ↦ some (record s {
        sockets = sockets;
        listeners = Map.insert handle state' s.listeners;
        pending = Map.insert handle (PendingOp.tcp_accept response) s.pending;
      })
      | some (some found, sockets, state') ↦ some (
          accepted
            (record s { sockets = sockets; listeners = Map.insert handle state' s.listeners })
            response found)
    ]
  ]

  -- `for socket_handle in state.listening_handles`
  unfoldable pub close_listening : w.SocketSet → List ℕ → Option w.SocketSet
  close_listening sockets [] = some sockets
  close_listening sockets (h ∷ hs) = do
    socket ← w.get_tcp sockets h
    close_listening
        (if is_listen (w.state socket) then w.put_tcp sockets h (w.tcp_close socket) else sockets)
        hs

  unfoldable pub handle_tcp_listener_close : ℕ → Stack w → Option (Stack w)
  unfolding close_listening
  handle_tcp_listener_close handle s = elim (Map.get handle s.listeners) [
    | none ↦ some (record s { pending = Map.remove handle s.pending })
    | some state ↦ do
      sockets ← close_listening s.sockets state.listening_handles
      some (record s {
        sockets = sockets;
        pending = Map.remove handle s.pending;
        listeners = Map.remove handle s.listeners;
      })
  ]
