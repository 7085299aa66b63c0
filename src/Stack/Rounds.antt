-- ===== src/Stack/Rounds.antt =====
-- What a round of the data path of src/stack/mod.rs leaves when it ends.
pub mod Tcp
pub mod Udp
use tap_tunnel.Prelude.{
  ℕ, zero, suc, ◌<◌, ◌≡◌, refl, ap, true, Option, some, none, length, arith, ltb, drop, Bool-cases,
  Option-cases, inl, inr, ◌⊎◌, String,
}
use tap_tunnel.Bytes.{Bytes}
use tap_tunnel.Channel.{TryRecv, item, empty, disconnected, ReceiverLaws, SenderLaws}
use tap_tunnel.Stats.{TunnelStats, fetch_add_one}
use tap_tunnel.Net.{SocketAddr, socket_addr_to_endpoint, endpoint_to_socket_addr}
use tap_tunnel.Stack.State.{
  World, TcpSocketState, UdpSocketState, tcp_socket_buffer_size, udp_read_buf_size,
}
use tap_tunnel.Stack.DataPath.{
  tcp_write_loop, process_tcp_write, process_tcp_read, process_udp_write, process_udp_read,
}

module _ (w : World) where
  -- A round of writes that ended, and left the other channel as it was.
  abbrev pub TcpWritten : Option (w.TcpSocket × TcpSocketState w) → TcpSocketState w → Type 0
  TcpWritten result st =
      (after : w.TcpSocket × TcpSocketState w) × (result ≡ some after)
      × (after.1.read_tx ≡ st.read_tx)

  abbrev pub UdpWritten :
      Option (w.UdpSocket × UdpSocketState w × TunnelStats) → UdpSocketState w → Type 0
  UdpWritten result st =
      (after : w.UdpSocket × UdpSocketState w × TunnelStats) × (result ≡ some after)
      × (after.1.read_tx ≡ st.read_tx)

  abbrev pub TcpEnded : Option (w.TcpSocket × TcpSocketState w) → Type 0
  TcpEnded result = (after : w.TcpSocket × TcpSocketState w) × (result ≡ some after)

  abbrev pub UdpEnded : Option (w.UdpSocket × UdpSocketState w × TunnelStats) → Type 0
  UdpEnded result = (after : w.UdpSocket × UdpSocketState w × TunnelStats) × (result ≡ some after)
