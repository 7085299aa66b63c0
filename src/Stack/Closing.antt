-- ===== src/Stack/Closing.antt =====
-- `handle_tcp_listener_close` of src/stack/mod.rs does not panic on a handle, and leaves every handle
-- in the stack's maps with its socket.
use tap_tunnel.Prelude.{
  ℕ, ◌≡◌, refl, some, List, [], ◌∷◌, All, Bool-cases, Option-cases, inl, inr, arith,
}
use tap_tunnel.Map
use tap_tunnel.Map.{Map, All-insert, All-remove, All-get, All-mono}
use tap_tunnel.Stack.Smoltcp.{SetLaws}
use tap_tunnel.Stack.State.{World, Stack}
use tap_tunnel.Stack.Listeners.{is_listen, close_listening, handle_tcp_listener_close}
use tap_tunnel.Stack.Live.{
  TcpLive, OpLive, ListenerLive, IsLive, Grows, Grows-refl, Grows-trans, LiveParts-grow,
  Grows-put_tcp,
}
use tap_tunnel.Stack.Safety.{Safe}

module _ (w : World) (laws : SetLaws w.net) where
  close_listening-Grows :
      (handles : List ℕ) (set : w.SocketSet)
      → All (TcpLive w set) handles
      → (after : w.SocketSet) × (close_listening w set handles ≡ some after) × Grows w set after
  unfolding close_listening
  close_listening-Grows [] set live = (set, refl, Grows-refl w set)
  close_listening-Grows (h ∷ hs) set ((x, there), live) =
      elim (Bool-cases (is_listen (w.state x))) [
        | inl listening ↦
            let closed = w.put_tcp set h (w.tcp_close x) in
            let g = Grows-put_tcp w laws set h (w.tcp_close x) (x, there) in
            let (after, ran, more) =
              close_listening-Grows hs closed (All-mono _ _ hs (λ k y. g.tcp k y) live) in
            (after, ground (arith, ran), Grows-trans w g more)
        | inr other ↦
            let (after, ran, more) = close_listening-Grows hs set live in
            (after, ground (arith, ran), more)
      ]

  -- The close of a listener does not panic, and leaves every handle in the stack's maps with its
  -- socket, if each had one before.
  pub handle_tcp_listener_close-Safe :
      (handle : ℕ) (s : Stack w) → IsLive w s → Safe w (handle_tcp_listener_close w handle s)
  unfolding handle_tcp_listener_close
  handle_tcp_listener_close-Safe handle s v = elim (Option-cases (Map.get handle s.listeners)) [
    | inl nobody ↦ (
      record s { pending = Map.remove handle s.pending },
      ground arith,
      record {
        tcp = v.tcp;
        udp = v.udp;
        ops = All-remove (OpLive w s.sockets) handle s.pending v.ops;
        backlogs = v.backlogs;
      },
    )
    | inr (state, got) ↦
        let live = All-get (ListenerLive w s.sockets) handle state s.listeners v.backlogs got in
        let (set, ran, g) = close_listening-Grows state.listening_handles s.sockets live in
        let grown = LiveParts-grow w g v in
        (
          record s {
            sockets = set;
            pending = Map.remove handle s.pending;
            listeners = Map.remove handle s.listeners;
          },
          ground (arith, ran),
          record {
            tcp = grown.tcp;
            udp = grown.udp;
            ops = All-remove (OpLive w set) handle s.pending grown.ops;
            backlogs = All-remove (ListenerLive w set) handle s.listeners grown.backlogs;
          },
        )
  ]
