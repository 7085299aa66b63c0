-- ===== src/Stack/Passing.antt =====
-- The loops over the sockets in `poll_write_channels` and `poll_read_channels` of src/stack/mod.rs:
-- they end, and panic on no handle.
use tap_tunnel.Prelude.{◌≡◌, refl, Option, some, [], ◌∷◌, All, arith}
use tap_tunnel.Map.{Map, All-mono}
use tap_tunnel.Stats.{TunnelStats}
use tap_tunnel.Stack.Smoltcp.{SetLaws}
use tap_tunnel.Stack.State.{World, TcpSocketState, UdpSocketState}
use tap_tunnel.Stack.Live.{
  TcpLive, UdpLive, Grows, Grows-refl, Grows-trans, Grows-put_tcp, Grows-put_udp,
}
use tap_tunnel.Stack.Run.{each_tcp, each_udp}

module _ (w : World) (laws : SetLaws w.net) where
  -- The states for which a round ends, and what it makes of them.
  abbrev pub TcpEnds :
      (w.TcpSocket → TcpSocketState w → Option (w.TcpSocket × TcpSocketState w))
      → (P Q : TcpSocketState w → Type 0) → Type 0
  TcpEnds serve P Q =
      (x : w.TcpSocket) (st : TcpSocketState w)
      → P st
      → (after : w.TcpSocket × TcpSocketState w) × (serve x st ≡ some after) × Q after.1

  abbrev pub UdpEnds :
      (w.UdpSocket
        → UdpSocketState w
        → TunnelStats
        → Option (w.UdpSocket × UdpSocketState w × TunnelStats))
      → (P Q : UdpSocketState w → Type 0) → Type 0
  UdpEnds serve P Q =
      (x : w.UdpSocket) (st : UdpSocketState w) (stats : TunnelStats)
      → P st
      → (after : w.UdpSocket × UdpSocketState w × TunnelStats) × (serve x st stats ≡ some after)
        × Q after.1

  pub each_tcp-Ends :
      (serve : w.TcpSocket → TcpSocketState w → Option (w.TcpSocket × TcpSocketState w))
      (P Q : TcpSocketState w → Type 0) (m : Map (TcpSocketState w)) (set : w.SocketSet)
      → TcpEnds serve P Q
      → All (λ e. P e.1) m
      → All (λ e. TcpLive w set e.0) m
      → (m' : Map (TcpSocketState w)) × (set' : w.SocketSet) × (each_tcp w serve m set
          ≡ some (m', set'))
        × Grows w set set'
        × All (λ e. Q e.1) m'
        × All (λ e. TcpLive w set' e.0) m'
  unfolding each_tcp
  each_tcp-Ends serve P Q [] set ends p live = ([], set, refl, Grows-refl w set, tt, tt)
  each_tcp-Ends serve P Q ((h, st) ∷ rest) set ends (p, ps) ((x, there), lives) =
      let ((x', st'), ran, q) = ends x st p in
      let g = Grows-put_tcp w laws set h x' (x, there) in
      let (m', set', ran', g', qs, live') =
        each_tcp-Ends serve P Q rest (w.put_tcp set h x') ends ps
          (All-mono _ _ rest (λ e l. g.tcp e.0 l) lives) in
      (
        (h, st') ∷ m',
        set',
        ground (arith, there, ran, ran'),
        Grows-trans w g g',
        (q, qs),
        (g'.tcp h (g.tcp h (x, there)), live'),
      )

  pub each_udp-Ends :
      (serve : w.UdpSocket
        → UdpSocketState w
        → TunnelStats
        → Option (w.UdpSocket × UdpSocketState w × TunnelStats))
      (P Q : UdpSocketState w → Type 0) (m : Map (UdpSocketState w)) (set : w.SocketSet)
      (stats : TunnelStats)
      → UdpEnds serve P Q
      → All (λ e. P e.1) m
      → All (λ e. UdpLive w set e.0) m
      → (m' : Map (UdpSocketState w)) × (set' : w.SocketSet) × (stats' : TunnelStats) × (each_udp w
            serve m set stats
          ≡ some (m', set', stats'))
        × Grows w set set'
        × All (λ e. Q e.1) m'
        × All (λ e. UdpLive w set' e.0) m'
  unfolding each_udp
  each_udp-Ends serve P Q [] set stats ends p live =
      ([], set, stats, refl, Grows-refl w set, tt, tt)
  each_udp-Ends serve P Q ((h, st) ∷ rest) set stats ends (p, ps) ((x, there), lives) =
      let ((x', st', stats1), ran, q) = ends x st stats p in
      let g = Grows-put_udp w laws set h x' (x, there) in
      let (m', set', stats', ran', g', qs, live') =
        each_udp-Ends serve P Q rest (w.put_udp set h x') stats1 ends ps
          (All-mono _ _ rest (λ e l. g.udp e.0 l) lives) in
      (
        (h, st') ∷ m',
        set',
        stats',
        ground (arith, there, ran, ran'),
        Grows-trans w g g',
        (q, qs),
        (g'.udp h (g.udp h (x, there)), live'),
      )
