-- ===== src/Stack/Accepting.antt =====
-- `handle_tcp_accept` of src/stack/mod.rs does not panic on a handle, and leaves every handle in the
-- stack's maps with its socket.
use mathlib.Core.Path.{subst}
use tap_tunnel.Prelude.{
  ℕ, zero, suc, ◌+◌, ◌≡◌, refl, sym, Option, none, some, List, [], ◌∷◌, ◌++◌, All, All-append,
  Bool-cases, Option-cases, inl, inr, arith, String,
}
use tap_tunnel.Net.{SocketAddr, socket_addr_to_listen_endpoint, endpoint_to_socket_addr}
use tap_tunnel.Io.{io_error, invalid_input}
use tap_tunnel.Map
use tap_tunnel.Map.{Map, All-insert, All-remove, All-get, All-mono}
use tap_tunnel.Stack.Smoltcp.{SetLaws}
use tap_tunnel.Stack.State.{
  World, Stack, PendingOp, ListenerState, send, failed, create_tcp_channels, tcp_socket_buffer_size,
}
use tap_tunnel.Stack.Listeners.{
  is_established, find_established, handle_at, remove_at, replace_listener, try_accept_socket,
  accepted, handle_tcp_accept,
}
use tap_tunnel.Stack.Live.{
  TcpLive, OpLive, ListenerLive, LiveParts, IsLive, Grows, Grows-refl, LiveParts-grow,
  Grows-add_tcp, TcpLive-add_tcp,
}
use tap_tunnel.Stack.Safety.{Safe}

module _ (w : World) (laws : SetLaws w.net) where
  All-remove_at :
      (set : w.SocketSet) (i : ℕ) (hs : List ℕ)
      → All (TcpLive w set) hs
      → All (TcpLive w set) (remove_at i hs)
  unfolding remove_at
  All-remove_at set i [] live = tt
  All-remove_at set zero (h ∷ hs) live = live.1
  All-remove_at set (suc i) (h ∷ hs) live = (live.0, All-remove_at set i hs live.1)

  -- `listen` on a new socket for a listener's address.
  abbrev new_listen : ListenerState → Option String × w.TcpSocket
  new_listen state =
      w.listen_on (w.tcp_new tcp_socket_buffer_size tcp_socket_buffer_size)
        (socket_addr_to_listen_endpoint state.addr)

  replace_listener-failed :
      (state : ListenerState) (set : w.SocketSet) (e : String)
      → (new_listen state).0 ≡ some e
      → replace_listener w state set ≡ (set, state)
  unfolding replace_listener
  replace_listener-failed state set e refused = ground arith

  replace_listener-listens :
      (state : ListenerState) (set : w.SocketSet)
      → (new_listen state).0 ≡ none
      → replace_listener w state set ≡ (
        (w.add_tcp set (new_listen state).1).1,
        record state {
          listening_handles =
              state.listening_handles ++ (w.add_tcp set (new_listen state).1).0 ∷ [];
        },
      )
  unfolding replace_listener
  replace_listener-listens state set listens = ground arith

  -- A socket to listen on in place of the one that was accepted.
  replace_listener-Grows :
      (state : ListenerState) (set : w.SocketSet)
      → All (TcpLive w set) state.listening_handles
      → Grows w set (replace_listener w state set).0
        × All
            (TcpLive w (replace_listener w state set).0)
            (replace_listener w state set).1.listening_handles
  replace_listener-Grows state set live = elim (Option-cases (new_listen state).0) [
    | inr (e, refused) ↦ rw (replace_listener-failed state set e refused) (Grows-refl w set, live)
    | inl listens ↦
        let x = (new_listen state).1 in
        let g = Grows-add_tcp w laws set x in
        rw (replace_listener-listens state set listens) (
          g,
          All-append (TcpLive w (w.add_tcp set x).1) state.listening_handles _
              (All-mono _ _ state.listening_handles (λ h y. g.tcp h y) live)
              ((x, TcpLive-add_tcp w laws set x), tt),
        )
  ]

  -- The scan for an established socket ends, and what it finds has a socket.
  abbrev Finds : w.SocketSet → ℕ → List ℕ → Option (Option (ℕ × SocketAddr × SocketAddr)) → Type 0
  Finds set k hs none = ⊥
  Finds set k hs (some none) = Unit
  Finds set k hs (some (some (j, local, peer))) =
      (i : ℕ) × (j ≡ k + i) × TcpLive w set (handle_at w i hs)

  Finds-later :
      (set : w.SocketSet) (k h : ℕ) (hs : List ℕ)
      (r : Option (Option (ℕ × SocketAddr × SocketAddr)))
      → Finds set (suc k) hs r
      → Finds set k (h ∷ hs) r
  Finds-later set k h hs none found = found
  Finds-later set k h hs (some none) found = tt
  Finds-later set k h hs (some (some (j, local, peer))) (i, at, live) = (suc i, omega arith, live)

  -- The first handle is passed over.
  passed :
      (state : ListenerState) (set : w.SocketSet) (k h : ℕ) (hs : List ℕ)
      → find_established w state set k (h ∷ hs) ≡ find_established w state set (suc k) hs
      → Finds set (suc k) hs (find_established w state set (suc k) hs)
      → Finds set k (h ∷ hs) (find_established w state set k (h ∷ hs))
  passed state set k h hs same found =
      subst (Finds set k (h ∷ hs)) (sym same) (Finds-later set k h hs _ found)

  -- The first handle is the one.
  first :
      (state : ListenerState) (set : w.SocketSet) (k h : ℕ) (hs : List ℕ) (local peer : SocketAddr)
      → find_established w state set k (h ∷ hs) ≡ some (some (k, local, peer))
      → TcpLive w set h
      → Finds set k (h ∷ hs) (find_established w state set k (h ∷ hs))
  first state set k h hs local peer same live =
      subst (Finds set k (h ∷ hs)) (sym same) (0, omega arith, live)

  find_established-Finds :
      (state : ListenerState) (set : w.SocketSet) (k : ℕ) (hs : List ℕ)
      → All (TcpLive w set) hs
      → Finds set k hs (find_established w state set k hs)
  unfolding find_established
  find_established-Finds state set k [] live = tt
  find_established-Finds state set k (h ∷ hs) ((x, there), live) =
      let later = find_established-Finds state set (suc k) hs live in
      elim (Bool-cases (is_established (w.state x))) [
        | inr other ↦ passed state set k h hs (ground arith) later
        | inl connected ↦ elim (Option-cases (w.remote_endpoint x)) [
          | inl nobody ↦ passed state set k h hs (ground arith) later
          | inr (remote, from) ↦ elim (Option-cases (w.local_endpoint x)) [
            | inl unknown ↦
                first state set k h hs state.addr (endpoint_to_socket_addr remote) (ground arith)
                  (x, there)
            | inr (local, to) ↦
                first state set k h hs (endpoint_to_socket_addr local)
                  (endpoint_to_socket_addr remote) (ground arith) (x, there)
          ]
        ]
      ]

  -- What `try_accept_socket` does to the set and to the listener, and what it finds.
  abbrev pub Accepts :
      w.SocketSet
      → Option (Option (ℕ × SocketAddr × SocketAddr) × w.SocketSet × ListenerState)
      → Type 0
  Accepts old none = ⊥
  Accepts old (some (none, set, state)) =
      Grows w old set × All (TcpLive w set) state.listening_handles
  Accepts old (some (some (h, local, peer), set, state)) =
      Grows w old set × All (TcpLive w set) state.listening_handles × TcpLive w set h

  pub try_accept_socket-Accepts :
      (set : w.SocketSet) (state : ListenerState)
      → All (TcpLive w set) state.listening_handles
      → Accepts set (try_accept_socket w set state)
  unfolding try_accept_socket
  try_accept_socket-Accepts set state live =
      by_scan (find_established w state set 0 state.listening_handles) refl
        (find_established-Finds state set 0 state.listening_handles live)
    where
      by_scan :
          (r : Option (Option (ℕ × SocketAddr × SocketAddr)))
          → find_established w state set 0 state.listening_handles ≡ r
          → Finds set 0 state.listening_handles r
          → Accepts set (try_accept_socket w set state)
      by_scan none e found = absurd found
      by_scan (some none) e found =
          let same : try_accept_socket w set state ≡ some (none, set, state) = ground arith in
          subst (Accepts set) (sym same) (Grows-refl w set, live)
      by_scan (some (some (j, local, peer))) e (i, at, x) =
          let left = record state { listening_handles = remove_at j state.listening_handles } in
          let (g, all) =
            replace_listener-Grows left set (All-remove_at set j state.listening_handles live) in
          let same : try_accept_socket w set state
              ≡ some (
                some (handle_at w j state.listening_handles, local, peer),
                (replace_listener w left set).0,
                (replace_listener w left set).1,
              ) =
            ground arith in
          subst (Accepts set) (sym same) (
            g,
            all,
            g.tcp (handle_at w j state.listening_handles) (
                subst (λ n. TcpLive w set (handle_at w n state.listening_handles)) (omega arith) x),
          )

  -- The stack with the new set and the new state of a listener.
  pub accepting :
      (handle : ℕ) (s : Stack w) (set : w.SocketSet) (state : ListenerState)
      → IsLive w s
      → Grows w s.sockets set
      → All (TcpLive w set) state.listening_handles
      → LiveParts w set s.pending (Map.insert handle state s.listeners) s.tcp_states s.udp_states
  unfolding Map.insert
  accepting handle s set state v g all =
      let grown = LiveParts-grow w g v in
      record {
        tcp = grown.tcp;
        udp = grown.udp;
        ops = grown.ops;
        backlogs = (all, All-remove (ListenerLive w set) handle s.listeners grown.backlogs);
      }

  handle_tcp_accept-by :
      (handle response : ℕ) (s : Stack w) (state : ListenerState)
      (r : Option (Option (ℕ × SocketAddr × SocketAddr) × w.SocketSet × ListenerState))
      → IsLive w s
      → Map.get handle s.listeners ≡ some state
      → try_accept_socket w s.sockets state ≡ r
      → Accepts s.sockets r
      → Safe w (handle_tcp_accept w handle response s)
  unfolding handle_tcp_accept accepted send
  handle_tcp_accept-by handle response s state none v got tried result = absurd result
  handle_tcp_accept-by handle response s state (some (none, set, state')) v got tried (g, all) =
      let grown = accepting handle s set state' v g all in
      (
        record s {
          sockets = set;
          listeners = Map.insert handle state' s.listeners;
          pending = Map.insert handle (PendingOp.tcp_accept response) s.pending;
        },
        ground arith,
        record {
          tcp = grown.tcp;
          udp = grown.udp;
          ops =
              All-insert (OpLive w set) handle (PendingOp.tcp_accept response) s.pending tt
                grown.ops;
          backlogs = grown.backlogs;
        },
      )
  handle_tcp_accept-by handle response s state (some (some (h, local, peer), set, state')) v got
        tried (g, all, live) =
      let grown = accepting handle s set state' v g all in
      (
        accepted w (record s { sockets = set; listeners = Map.insert handle state' s.listeners })
            response (h, local, peer),
        ground arith,
        record {
          tcp =
              All-insert (λ e. TcpLive w set e.0) h (create_tcp_channels w).1 s.tcp_states live
                grown.tcp;
          udp = grown.udp;
          ops = grown.ops;
          backlogs = grown.backlogs;
        },
      )

  -- An accept does not panic, and leaves every handle in the stack's maps with its socket, if each
  -- had one before: the handle of an accepted connection, and that of the socket that listens in
  -- its place, among them.
  pub handle_tcp_accept-Safe :
      (handle response : ℕ) (s : Stack w)
      → IsLive w s
      → Safe w (handle_tcp_accept w handle response s)
  unfolding handle_tcp_accept send
  handle_tcp_accept-Safe handle response s v = elim (Option-cases (Map.get handle s.listeners)) [
    | inl nobody ↦ (
      send w s response (failed (io_error invalid_input "not a listener handle")),
      ground arith,
      v,
    )
    | inr (state, got) ↦
        handle_tcp_accept-by handle response s state (try_accept_socket w s.sockets state) v got
          refl
          (try_accept_socket-Accepts s.sockets state
            (All-get (ListenerLive w s.sockets) handle state s.listeners v.backlogs got))
  ]
