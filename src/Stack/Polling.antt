-- ===== src/Stack/Polling.antt =====
-- The parts of the loop's body in `run_stack` of src/stack/mod.rs panic on no handle.
use tap_tunnel.Prelude.{ℕ, zero, suc, ◌≡◌, refl, Bool, true, false, Option, some, All, arith}
use tap_tunnel.Map.{All-mono}
use tap_tunnel.Stats.{TunnelStats}
use tap_tunnel.Stack.Smoltcp.{SetLaws, idle, packet_processed, socket_state_changed, Ingress}
use tap_tunnel.Stack.State.{World, Stack, TcpSocketState, UdpSocketState}
use tap_tunnel.Stack.Pending.{process_pending}
use tap_tunnel.Stack.Run.{poll_channels, poll_ingress}
use tap_tunnel.Stack.Live.{IsLive, LiveParts-grow, Grows}
use tap_tunnel.Stack.Safety.{Safe}
use tap_tunnel.Stack.Passing.{TcpEnds, UdpEnds, each_tcp-Ends, each_udp-Ends}
use tap_tunnel.Stack.Settling.{process_pending-Safe}

module _ (w : World) (laws : SetLaws w.net) where
  open laws use {ingress_keeps, egress_keeps}

  -- The sockets' states satisfy what a round needs, or leaves.
  abbrev pub Have :
      (P : TcpSocketState w → Type 0) (Q : UdpSocketState w → Type 0) → Stack w → Type 0
  Have P Q s = All (λ e. P e.1) s.tcp_states × All (λ e. Q e.1) s.udp_states

  pub poll_channels-Safe :
      (serve_tcp : w.TcpSocket → TcpSocketState w → Option (w.TcpSocket × TcpSocketState w))
      (serve_udp : w.UdpSocket
        → UdpSocketState w
        → TunnelStats
        → Option (w.UdpSocket × UdpSocketState w × TunnelStats))
      (P P' : TcpSocketState w → Type 0) (Q Q' : UdpSocketState w → Type 0) (s : Stack w)
      → TcpEnds w laws serve_tcp P P'
      → UdpEnds w laws serve_udp Q Q'
      → Have P Q s
      → IsLive w s
      → (after : Stack w) × (poll_channels w serve_tcp serve_udp s ≡ some after)
        × IsLive w after
        × Have P' Q' after
  unfolding poll_channels
  poll_channels-Safe serve_tcp serve_udp P P' Q Q' s ends_tcp ends_udp (ps, qs) v =
      let (tcp, set, ran, g, ps', tcp_live) =
        each_tcp-Ends w laws serve_tcp P P' s.tcp_states s.sockets ends_tcp ps v.tcp in
      let grown = LiveParts-grow w g v in
      let (udp, set', stats, ran', g', qs', udp_live) =
        each_udp-Ends w laws serve_udp Q Q' s.udp_states set s.stats ends_udp qs grown.udp in
      let more = LiveParts-grow w g' grown in
      (
        record s { sockets = set'; tcp_states = tcp; udp_states = udp; stats = stats },
        ground (arith, ran, ran'),
        record {
          tcp = All-mono _ _ tcp (λ e l. g'.tcp e.0 l) tcp_live;
          udp = udp_live;
          ops = more.ops;
          backlogs = more.backlogs;
        },
        (ps', qs'),
      )

  Grows-ingress :
      (s : Stack w) (d : w.Device) → Grows w s.sockets (w.poll_ingress_single s.iface d s.sockets).3
  Grows-ingress s d = record {
    tcp = λ h (x, there). (ingress_keeps s.iface d s.sockets h).0 x there;
    udp = λ h (x, there). (ingress_keeps s.iface d s.sockets h).1 x there;
  }

  pub Grows-egress :
      (s : Stack w) (d : w.Device) → Grows w s.sockets (w.poll_egress s.iface d s.sockets).3
  Grows-egress s d = record {
    tcp = λ h (x, there). (egress_keeps s.iface d s.sockets h).0 x there;
    udp = λ h (x, there). (egress_keeps s.iface d s.sockets h).1 x there;
  }

  -- One packet later.
  abbrev polled : Stack w → w.Device → Stack w
  polled s d = record s {
    iface = (w.poll_ingress_single s.iface d s.sockets).1;
    sockets = (w.poll_ingress_single s.iface d s.sockets).3;
  }

  abbrev device_after : Stack w → w.Device → w.Device
  device_after s d = (w.poll_ingress_single s.iface d s.sockets).2

  -- Polling touches neither the maps nor which sockets there are.
  abbrev pub Polled : Stack w → Stack w → Type 0
  Polled s s' = IsLive w s' × (s'.tcp_states ≡ s.tcp_states) × (s'.udp_states ≡ s.udp_states)

  pub poll_ingress-Polled :
      (n : ℕ) (changed : Bool) (d : w.Device) (s : Stack w)
      → IsLive w s
      → Polled s (poll_ingress w n changed d s).2
  unfolding poll_ingress
  poll_ingress-Polled zero changed d s v = (v, refl, refl)
  poll_ingress-Polled (suc n) changed d s v =
      let v' : IsLive w (polled s d) = LiveParts-grow w (Grows-ingress s d) v in
      by_result (w.poll_ingress_single s.iface d s.sockets).0 v'
        (poll_ingress-Polled n changed (device_after s d) (polled s d) v')
        (poll_ingress-Polled n true (device_after s d) (polled s d) v')
    where
      by_result :
          (r : Ingress)
          → IsLive w (polled s d)
          → Polled s (poll_ingress w n changed (device_after s d) (polled s d)).2
          → Polled s (poll_ingress w n true (device_after s d) (polled s d)).2
          → Polled s
              (elim r as (λ _. Bool × w.Device × Stack w) [
                | idle ↦ (changed, (device_after s d), polled s d)
                | packet_processed ↦ poll_ingress w n changed (device_after s d) (polled s d)
                | socket_state_changed ↦ poll_ingress w n true (device_after s d) (polled s d)
              ]).2
      by_result idle v' same changed_ = (v', refl, refl)
      by_result packet_processed v' same changed_ = same
      by_result socket_state_changed v' same changed_ = changed_

  pub process_if-Safe :
      (changed : Bool) (s : Stack w)
      → IsLive w s
      → Safe w
          (elim changed as (λ _. Option (Stack w)) [ true ↦ process_pending w s | false ↦ some s ])
  process_if-Safe true s v = process_pending-Safe w laws s v
  process_if-Safe false s v = (s, refl, v)
