-- ===== src/Stack/Endings.antt =====
-- How src/stack/mod.rs ends things: what the return of `run_stack` does to the operations that wait,
-- and what closing a listener does to its sockets.
use tap_tunnel.Prelude.{
  ℕ, ◌≡◌, refl, sym, ap, ◌∙◌, Bool, true, false, Option, none, some, List, [], ◌∷◌, ◌++◌,
  append-nil, append_assoc, map, ◌==◌, ==_iff, if◌then◌else◌, arith, Bool-cases, Option-cases, inl,
  inr,
}
use tap_tunnel.Io.{io_error, connection_aborted}
use tap_tunnel.Map
use tap_tunnel.Map.{Map, get-remove}
use tap_tunnel.Stack.Smoltcp.{SetLaws}
use tap_tunnel.Stack.State.{World, Stack, PendingOp, ListenerState, Reply, failed, send}
use tap_tunnel.Stack.Listeners.{close_listening, handle_tcp_listener_close, is_listen}
use tap_tunnel.Stack.Pending.{response_of, fail_all, abort_pending}

module _ (w : World) where
  -- The reply to an operation that waits when the connection to the proxy is lost.
  abbrev pub aborted : ℕ × PendingOp w → ℕ × Reply w
  aborted (h, op) = (response_of w op, failed (io_error connection_aborted "proxy connection lost"))

  fail_all-aborted :
      (ops : Map (PendingOp w)) (s : Stack w)
      → fail_all w ops s ≡ record s { replies = s.replies ++ map aborted ops }
  unfolding fail_all send
  fail_all-aborted [] s = ap (λ r. record s { replies = r }) (sym (append-nil s.replies))
  fail_all-aborted ((h, op) ∷ ops) s =
      fail_all-aborted ops _
      ∙ ap (λ r. record s { replies = r })
          (append_assoc s.replies (aborted (h, op) ∷ []) (map aborted ops))

  -- When `run_stack` returns because the connection to the proxy is lost, every operation that
  -- waits is answered once, with `ConnectionAborted`, none waits any more, and nothing else changes.
  pub abort_pending-aborted :
      (s : Stack w)
      → abort_pending w s ≡ record s { pending = []; replies = s.replies ++ map aborted s.pending }
  unfolding abort_pending
  abort_pending-aborted s = fail_all-aborted s.pending (record s { pending = [] })

-- `handles.contains(&h)`
abbrev pub member : ℕ → List ℕ → Bool
member h [] = false
member h (k ∷ ks) = if k == h then true else member h ks

module _ (w : World) (laws : SetLaws w.net) where
  open laws use {get_tcp-put_tcp, get_udp-put_tcp, one_kind}

  -- What closing the listener's sockets makes of one socket.
  abbrev pub closed_if_listening : Bool → Option w.TcpSocket → Option w.TcpSocket
  closed_if_listening false o = o
  closed_if_listening true none = none
  closed_if_listening true (some x) = if is_listen (w.state x) then some (w.tcp_close x) else some x

  -- A closed socket does not listen any more.
  abbrev pub CloseEnds : Type 0
  CloseEnds = (x : w.TcpSocket) → is_listen (w.state (w.tcp_close x)) ≡ false

  closed_stays :
      (b : Bool) (y : w.TcpSocket)
      → is_listen (w.state y) ≡ false
      → closed_if_listening b (some y) ≡ some y
  closed_stays false y e = refl
  closed_stays true y e = rw e refl

  -- One socket of the list, then the others.
  close_one :
      CloseEnds
      → (sockets : w.SocketSet) (k h : ℕ) (x : w.TcpSocket) (others : Bool)
      → w.get_tcp sockets k ≡ some x
      → closed_if_listening others (
          w.get_tcp
            (if is_listen (w.state x) then w.put_tcp sockets k (w.tcp_close x) else sockets)
            h)
        ≡ closed_if_listening (if k == h then true else others) (w.get_tcp sockets h)
  close_one ends sockets k h x others there = elim (Bool-cases (k == h)) [
    | inl here ↦
        let same : k ≡ h = (==_iff k h).0 here in
        let there' : w.get_tcp sockets h ≡ some x = ap (w.get_tcp sockets) (sym same) ∙ there in
        elim (Bool-cases (is_listen (w.state x))) [
          | inl listening ↦ ground (
            arith,
            get_tcp-put_tcp sockets k (w.tcp_close x) h,
            closed_stays others (w.tcp_close x) (ends x),
          )
          | inr other ↦ ground (arith, closed_stays others x other)
        ]
    | inr apart ↦ elim (Bool-cases (is_listen (w.state x))) [
      | inl listening ↦ ground (arith, get_tcp-put_tcp sockets k (w.tcp_close x) h)
      | inr other ↦ ground arith
    ]
  ]

  close_listening-get :
      CloseEnds
      → (handles : List ℕ) (sockets after : w.SocketSet)
      → close_listening w sockets handles ≡ some after
      → (h : ℕ) → w.get_tcp after h ≡ closed_if_listening (member h handles) (w.get_tcp sockets h)
  unfolding close_listening
  close_listening-get ends [] sockets after ran h = ground arith
  close_listening-get ends (k ∷ ks) sockets after ran h =
      elim (Option-cases (w.get_tcp sockets k)) [
        | inl panic ↦ absurd (ground arith)
        | inr (x, there) ↦
            close_listening-get ends ks
              (if is_listen (w.state x) then w.put_tcp sockets k (w.tcp_close x) else sockets) after
              (ground arith) h
            ∙ close_one ends sockets k h x (member h ks) there
      ]

  close_listening-get_udp :
      (handles : List ℕ) (sockets after : w.SocketSet)
      → close_listening w sockets handles ≡ some after
      → (h : ℕ) → w.get_udp after h ≡ w.get_udp sockets h
  unfolding close_listening
  close_listening-get_udp [] sockets after ran h = ground arith
  close_listening-get_udp (k ∷ ks) sockets after ran h = elim (Option-cases (w.get_tcp sockets k)) [
    | inl panic ↦ absurd (ground arith)
    | inr (x, there) ↦
        close_listening-get_udp ks
          (if is_listen (w.state x) then w.put_tcp sockets k (w.tcp_close x) else sockets) after
          (ground arith) h
        ∙ elim (Bool-cases (is_listen (w.state x))) [
          | inl listening ↦
              ground
                (arith, get_udp-put_tcp sockets k (w.tcp_close x) h (one_kind sockets k x there))
          | inr other ↦ ground arith
        ]
  ]

  -- Closing a listener that is there removes it and the accept that waits on it, and closes those
  -- of its sockets that still listen. Its other sockets, connections not yet accepted among them,
  -- stay as they are, and so does every other socket, TCP or UDP. The close of smoltcp takes a
  -- socket out of the state `Listen`.
  pub handle_tcp_listener_close-get :
      CloseEnds
      → (handle : ℕ) (s after : Stack w) (state : ListenerState)
      → Map.get handle s.listeners ≡ some state
      → handle_tcp_listener_close w handle s ≡ some after
      → (h : ℕ)
      → (w.get_tcp after.sockets h
          ≡ closed_if_listening (member h state.listening_handles) (w.get_tcp s.sockets h))
        × (w.get_udp after.sockets h ≡ w.get_udp s.sockets h)
        × (Map.get handle after.listeners ≡ none)
        × (Map.get handle after.pending ≡ none)
  unfolding handle_tcp_listener_close
  handle_tcp_listener_close-get ends handle s after state there ran h =
      elim (Option-cases (close_listening w s.sockets state.listening_handles)) [
        | inl panic ↦ absurd (ground arith)
        | inr (sockets, closed) ↦
            let e : some (record s {
              sockets = sockets;
              pending = Map.remove handle s.pending;
              listeners = Map.remove handle s.listeners;
            })
                ≡ some after =
              ground arith in
            let e' : after ≡ record s {
              sockets = sockets;
              pending = Map.remove handle s.pending;
              listeners = Map.remove handle s.listeners;
            } =
              cc in
            rw e' (
              close_listening-get ends state.listening_handles s.sockets sockets closed h,
              close_listening-get_udp state.listening_handles s.sockets sockets closed h,
              ground (arith, get-remove handle handle s.listeners),
              ground (arith, get-remove handle handle s.pending),
            )
      ]
