-- ===== src/Stack/Pending.antt =====
-- `process_pending` of src/stack/mod.rs: the waiting connects and accepts, one handle at a time, and
-- the end of `run_stack`, which fails them all.
use tap_tunnel.Prelude.{ℕ, Option, none, some, List, [], ◌∷◌}
use tap_tunnel.Io.{io_error, connection_refused, connection_aborted, invalid_input}
use tap_tunnel.Map
use tap_tunnel.Map.{Map}
use tap_tunnel.Stack.Smoltcp.{TcpState}
use tap_tunnel.Stack.State.{
  World, Stack, PendingOp, tcp_connect, tcp_accept, stream, failed, send, TcpChannels,
}
use tap_tunnel.Net.{SocketAddr}
use tap_tunnel.Stack.Listeners.{◌>>=◌, try_accept_socket, accepted}

module _ (w : World) where
  -- A waiting connect, by the state of its socket.
  unfoldable pub process_connect :
      (handle : ℕ) (local_addr peer_addr : SocketAddr) (channels : TcpChannels w) (response : ℕ)
      → TcpState
      → Stack w
      → Stack w
  unfolding send
  process_connect handle local_addr peer_addr channels response TcpState.established s =
      send w (record s { pending = Map.remove handle s.pending }) response
        (stream handle local_addr peer_addr channels)
  process_connect handle local_addr peer_addr channels response TcpState.closed s =
      send w
        (record s {
          pending = Map.remove handle s.pending;
          tcp_states = Map.remove handle s.tcp_states;
        })
        response (failed (io_error connection_refused "connection failed"))
  process_connect handle local_addr peer_addr channels response TcpState.time_wait s =
      send w
        (record s {
          pending = Map.remove handle s.pending;
          tcp_states = Map.remove handle s.tcp_states;
        })
        response (failed (io_error connection_refused "connection failed"))
  process_connect handle local_addr peer_addr channels response _ s = s

  unfoldable pub process_accept : (handle response : ℕ) → Stack w → Option (Stack w)
  unfolding send accepted
  process_accept handle response s = elim (Map.get handle s.listeners) [
    | none ↦ some (
        send w (record s { pending = Map.remove handle s.pending }) response
          (failed (io_error invalid_input "listener closed")))
    | some state ↦ elim (try_accept_socket w s.sockets state) [
      | none ↦ none
      | some (none, sockets, state') ↦
          some (record s { sockets = sockets; listeners = Map.insert handle state' s.listeners })
      | some (some found, sockets, state') ↦ some (
          accepted w
            (record s {
              sockets = sockets;
              listeners = Map.insert handle state' s.listeners;
              pending = Map.remove handle s.pending;
            })
            response found)
    ]
  ]

  unfoldable pub process_op : ℕ → Option (PendingOp w) → Stack w → Option (Stack w)
  unfolding process_connect process_accept
  process_op handle none s = some s
  process_op handle (some (tcp_connect local_addr peer_addr channels response)) s = do
    socket ← w.get_tcp s.sockets handle
    some (process_connect handle local_addr peer_addr channels response (w.state socket) s)
  process_op handle (some (tcp_accept response)) s = process_accept handle response s

  -- `for handle in handles`
  unfoldable pub process_handles : List ℕ → Stack w → Option (Stack w)
  unfolding process_op
  process_handles [] s = some s
  process_handles (h ∷ hs) s = do s' ← process_op h (Map.get h s.pending) s; process_handles hs s'

  unfoldable pub process_pending : Stack w → Option (Stack w)
  unfolding process_handles
  process_pending s = process_handles (Map.keys s.pending) s

  unfoldable pub response_of : PendingOp w → ℕ
  response_of (tcp_connect local_addr peer_addr channels response) = response
  response_of (tcp_accept response) = response

  -- `for (_handle, op) in pending.drain()`
  unfoldable pub fail_all : Map (PendingOp w) → Stack w → Stack w
  unfolding send response_of
  fail_all [] s = s
  fail_all ((h, op) ∷ ops) s =
      fail_all ops
        (send w s (response_of op) (failed (io_error connection_aborted "proxy connection lost")))

  unfoldable pub abort_pending : Stack w → Stack w
  unfolding fail_all
  abort_pending s = fail_all s.pending (record s { pending = [] })
