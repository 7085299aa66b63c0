-- ===== src/Stack/Safety.antt =====
-- `handle_tcp_close` and `handle_udp_close` of src/stack/mod.rs keep the maps and the socket set in
-- step.
use tap_tunnel.Prelude.{ℕ, ◌≡◌, Option, some, arith}
use tap_tunnel.Map
use tap_tunnel.Map.{Map, All-remove, All-insert, All-get, All-mono}
use tap_tunnel.Stack.Smoltcp.{SetLaws}
use tap_tunnel.Stack.State.{World, Stack}
use tap_tunnel.Stack.Commands.{handle_tcp_close, handle_udp_close}
use tap_tunnel.Stack.Live.{TcpLive, UdpLive, IsLive, LiveParts-grow, Grows-put_tcp, Grows-put_udp}

module _ (w : World) where
  -- A handler that does not panic, and leaves every handle with its socket.
  abbrev pub Safe : Option (Stack w) → Type 0
  Safe r = (after : Stack w) × (r ≡ some after) × IsLive w after

module _ (w : World) (laws : SetLaws w.net) where
  open laws use {fresh_tcp, fresh_udp}

  -- Closing a TCP socket that the set has does not panic, and every handle in the stack's maps
  -- still has its socket afterwards, if each had one before.
  pub handle_tcp_close-Safe :
      (h : ℕ) (s : Stack w) → IsLive w s → TcpLive w s.sockets h → Safe w (handle_tcp_close w h s)
  unfolding handle_tcp_close
  handle_tcp_close-Safe h s v (x, there) =
      let grown =
        LiveParts-grow w (Grows-put_tcp w laws s.sockets h (w.tcp_close x) (x, there)) v in
      (
        record s {
          sockets = w.put_tcp s.sockets h (w.tcp_close x);
          tcp_states = Map.remove h s.tcp_states;
        },
        ground arith,
        record {
          tcp =
              All-remove (λ e. TcpLive w (w.put_tcp s.sockets h (w.tcp_close x)) e.0) h s.tcp_states
                grown.tcp;
          udp = grown.udp;
          ops = grown.ops;
          backlogs = grown.backlogs;
        },
      )

  -- The same for a UDP socket.
  pub handle_udp_close-Safe :
      (h : ℕ) (s : Stack w) → IsLive w s → UdpLive w s.sockets h → Safe w (handle_udp_close w h s)
  unfolding handle_udp_close
  handle_udp_close-Safe h s v (x, there) =
      let grown =
        LiveParts-grow w (Grows-put_udp w laws s.sockets h (w.udp_close x) (x, there)) v in
      (
        record s {
          sockets = w.put_udp s.sockets h (w.udp_close x);
          udp_states = Map.remove h s.udp_states;
        },
        ground arith,
        record {
          tcp = grown.tcp;
          udp =
              All-remove (λ e. UdpLive w (w.put_udp s.sockets h (w.udp_close x)) e.0) h s.udp_states
                grown.udp;
          ops = grown.ops;
          backlogs = grown.backlogs;
        },
      )
