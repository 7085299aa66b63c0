-- ===== src/Stack/Settling.antt =====
-- `process_pending` of src/stack/mod.rs panics on no handle.
use tap_tunnel.Prelude.{
  ℕ, ◌≡◌, refl, Option, some, none, List, [], ◌∷◌, arith, Option-cases, inl, inr,
}
use tap_tunnel.Io.{io_error, invalid_input}
use tap_tunnel.Map
use tap_tunnel.Map.{Map, All-remove, All-insert, All-get}
use tap_tunnel.Net.{SocketAddr}
use tap_tunnel.Stack.Smoltcp.{SetLaws, TcpState}
use tap_tunnel.Stack.State.{
  World, Stack, PendingOp, tcp_connect, tcp_accept, ListenerState, TcpChannels, send, failed,
  create_tcp_channels,
}
use tap_tunnel.Stack.Listeners.{try_accept_socket, accepted}
use tap_tunnel.Stack.Pending.{
  process_connect, process_accept, process_op, process_handles, process_pending,
}
use tap_tunnel.Stack.Live.{TcpLive, OpLive, ListenerLive, IsLive, LiveParts}
use tap_tunnel.Stack.Safety.{Safe}
use tap_tunnel.Stack.Accepting.{Accepts, try_accept_socket-Accepts, accepting}

module _ (w : World) (laws : SetLaws w.net) where
  without_op :
      (h : ℕ) (s : Stack w)
      → IsLive w s
      → LiveParts w s.sockets (Map.remove h s.pending) s.listeners s.tcp_states s.udp_states
  without_op h s v = record {
    tcp = v.tcp;
    udp = v.udp;
    ops = All-remove (OpLive w s.sockets) h s.pending v.ops;
    backlogs = v.backlogs;
  }

  without_socket :
      (h : ℕ) (s : Stack w)
      → IsLive w s
      → LiveParts w s.sockets
          (Map.remove h s.pending)
          s.listeners
          (Map.remove h s.tcp_states)
          s.udp_states
  without_socket h s v = record {
    tcp = All-remove (λ e. TcpLive w s.sockets e.0) h s.tcp_states v.tcp;
    udp = v.udp;
    ops = All-remove (OpLive w s.sockets) h s.pending v.ops;
    backlogs = v.backlogs;
  }

  process_connect-IsLive :
      (h : ℕ) (local_addr peer_addr : SocketAddr) (channels : TcpChannels w) (response : ℕ)
      (state : TcpState) (s : Stack w)
      → IsLive w s
      → IsLive w (process_connect w h local_addr peer_addr channels response state s)
  unfolding process_connect send
  process_connect-IsLive h l p c r TcpState.established s v = without_op h s v
  process_connect-IsLive h l p c r TcpState.closed s v = without_socket h s v
  process_connect-IsLive h l p c r TcpState.time_wait s v = without_socket h s v
  process_connect-IsLive h l p c r TcpState.listen s v = v
  process_connect-IsLive h l p c r TcpState.syn_sent s v = v
  process_connect-IsLive h l p c r TcpState.syn_received s v = v
  process_connect-IsLive h l p c r TcpState.fin_wait1 s v = v
  process_connect-IsLive h l p c r TcpState.fin_wait2 s v = v
  process_connect-IsLive h l p c r TcpState.close_wait s v = v
  process_connect-IsLive h l p c r TcpState.closing s v = v
  process_connect-IsLive h l p c r TcpState.last_ack s v = v

  process_accept-by :
      (h response : ℕ) (s : Stack w) (state : ListenerState)
      (r : Option (Option (ℕ × SocketAddr × SocketAddr) × w.SocketSet × ListenerState))
      → IsLive w s
      → Map.get h s.listeners ≡ some state
      → try_accept_socket w s.sockets state ≡ r
      → Accepts w laws s.sockets r
      → Safe w (process_accept w h response s)
  unfolding process_accept accepted send
  process_accept-by h response s state none v got tried result = absurd result
  process_accept-by h response s state (some (none, set, state')) v got tried (g, all) = (
    record s { sockets = set; listeners = Map.insert h state' s.listeners },
    ground arith,
    accepting w laws h s set state' v g all,
  )
  process_accept-by h response s state (some (some (j, local, peer), set, state')) v got tried
        (g, all, live) =
      let grown = accepting w laws h s set state' v g all in
      (
        accepted w
            (record s {
              sockets = set;
              listeners = Map.insert h state' s.listeners;
              pending = Map.remove h s.pending;
            })
            response (j, local, peer),
        ground arith,
        record {
          tcp =
              All-insert (λ e. TcpLive w set e.0) j (create_tcp_channels w).1 s.tcp_states live
                grown.tcp;
          udp = grown.udp;
          ops = All-remove (OpLive w set) h s.pending grown.ops;
          backlogs = grown.backlogs;
        },
      )

  process_accept-Safe :
      (h response : ℕ) (s : Stack w) → IsLive w s → Safe w (process_accept w h response s)
  process_accept-Safe h response s v = elim (Option-cases (Map.get h s.listeners)) [
    | inl gone ↦ (
      send w (record s { pending = Map.remove h s.pending }) response
          (failed (io_error invalid_input "listener closed")),
      unfold process_accept send in ground arith,
      unfold send in without_op h s v,
    )
    | inr (state, got) ↦
        process_accept-by h response s state (try_accept_socket w s.sockets state) v got refl (
          try_accept_socket-Accepts w laws s.sockets state
            (All-get (ListenerLive w s.sockets) h state s.listeners v.backlogs got))
  ]

  process_op-Safe :
      (h : ℕ) (s : Stack w) (op : Option (PendingOp w))
      → Map.get h s.pending ≡ op
      → IsLive w s
      → Safe w (process_op w h op s)
  unfolding process_op
  process_op-Safe h s none got v = (s, refl, v)
  process_op-Safe h s (some (tcp_connect l p c r)) got v =
      let (x, there) = All-get (OpLive w s.sockets) h (tcp_connect l p c r) s.pending v.ops got in
      (
        process_connect w h l p c r (w.state x) s,
        ground (arith, there),
        process_connect-IsLive h l p c r (w.state x) s v,
      )
  process_op-Safe h s (some (tcp_accept r)) got v = process_accept-Safe h r s v

  process_handles-Safe : (hs : List ℕ) (s : Stack w) → IsLive w s → Safe w (process_handles w hs s)
  unfolding process_handles
  process_handles-Safe [] s v = (s, refl, v)
  process_handles-Safe (h ∷ hs) s v =
      let (s', ran, v') = process_op-Safe h s (Map.get h s.pending) refl v in
      let (s'', ran', v'') = process_handles-Safe hs s' v' in (s'', ground (arith, ran, ran'), v'')

  -- The pending operations are settled without a panic, and every handle in the stack's maps still
  -- has its socket, if each had one before.
  pub process_pending-Safe : (s : Stack w) → IsLive w s → Safe w (process_pending w s)
  unfolding process_pending
  process_pending-Safe s v = process_handles-Safe (Map.keys s.pending) s v
