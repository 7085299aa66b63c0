-- ===== src/Stack/DataPath.antt =====
-- The four data-path functions of src/stack/mod.rs, between the channels of a socket and smoltcp.
-- Their loops run on fuel, and `none` means that it ran out; Stack/TcpWrite and its neighbours show how
-- much is enough.
use tap_tunnel.Prelude.{
  ℕ, zero, suc, true, false, Option, none, some, inl, inr, ltb, if◌then◌else◌, length, drop,
}
use tap_tunnel.Net.{socket_addr_to_endpoint, endpoint_to_socket_addr}
use tap_tunnel.Channel.{item, empty, disconnected}
use tap_tunnel.Stats.{TunnelStats, fetch_add_one}
use tap_tunnel.Stack.State.{
  World, TcpSocketState, UdpSocketState, tcp_socket_buffer_size, udp_read_buf_size,
}

module _ (w : World) where
  -- `while socket.can_send() { … }` of `process_tcp_write`
  unfoldable pub tcp_write_loop :
      ℕ → w.TcpSocket → TcpSocketState w → Option (w.TcpSocket × TcpSocketState w)
  tcp_write_loop zero socket st = none
  tcp_write_loop (suc fuel) socket st =
      let (got, rx) = w.tcp.try_recv st.write_rx in
      elim (w.tcp_can_send socket) [
        | false ↦ some (socket, st)
        | true ↦ elim got [
          | item bs ↦
              let (written, socket') = w.tcp_send_slice socket bs in
              elim written [
                | inr n ↦ elim (ltb n (length bs)) [
                  | true ↦
                      some (socket', record st { write_rx = rx; pending_write = some (drop n bs) })
                  | false ↦ tcp_write_loop fuel socket' (record st { write_rx = rx })
                ]
                | inl e ↦ some (socket', record st { write_rx = rx })
              ]
          | empty ↦ some (socket, record st { write_rx = rx })
          | disconnected ↦ some (w.tcp_close socket, record st { write_rx = rx })
        ]
      ]

  unfoldable pub process_tcp_write :
      ℕ → w.TcpSocket → TcpSocketState w → Option (w.TcpSocket × TcpSocketState w)
  process_tcp_write fuel socket st = elim st.pending_write [
    | none ↦ tcp_write_loop fuel socket st
    | some waiting ↦
        let (written, socket') = w.tcp_send_slice socket waiting in
        elim (w.may_send socket) [
          | false ↦ some (socket, st)
          | true ↦ elim written [
            | inr n ↦ elim (ltb n (length waiting)) [
              | true ↦ some (socket', record st { pending_write = some (drop n waiting) })
              | false ↦ tcp_write_loop fuel socket' (record st { pending_write = none })
            ]
            | inl e ↦ some (socket', record st { pending_write = none })
          ]
        ]
  ]

  -- `while socket.can_recv() { … }`
  unfoldable pub process_tcp_read :
      ℕ → w.TcpSocket → TcpSocketState w → Option (w.TcpSocket × TcpSocketState w)
  process_tcp_read zero socket st = none
  process_tcp_read (suc fuel) socket st =
      let (received, socket') = w.tcp_recv_slice socket tcp_socket_buffer_size in
      elim (w.tcp_can_recv socket) [
        | false ↦ some (socket, st)
        | true ↦ elim (w.tcp.try_reserve st.read_tx) [
          | false ↦ some (socket, st)
          | true ↦ elim received [
            | inl e ↦ some (socket', st)
            | inr bs ↦ elim (ltb 0 (length bs)) [
              | true ↦
                  process_tcp_read fuel socket'
                    (record st { read_tx = w.tcp.permit_send st.read_tx bs })
              | false ↦ some (socket', st)
            ]
          ]
        ]
      ]

  unfoldable pub process_udp_write :
      ℕ
      → w.UdpSocket
      → UdpSocketState w
      → TunnelStats
      → Option (w.UdpSocket × UdpSocketState w × TunnelStats)
  process_udp_write zero socket st stats = none
  process_udp_write (suc fuel) socket st stats =
      let (got, rx) = w.udp.try_recv st.write_rx in
      elim (w.udp_can_send socket) [
        | false ↦ some (socket, st, stats)
        | true ↦ elim got [
          | item packet ↦
              let (sent, socket') =
                w.udp_send_slice socket packet.0 (socket_addr_to_endpoint packet.1) in
              process_udp_write fuel socket' (record st { write_rx = rx })
                (if sent
                  then record stats { udp_tx_packets = fetch_add_one stats.udp_tx_packets }
                  else record stats { udp_tx_failed = fetch_add_one stats.udp_tx_failed })
          | empty ↦ some (socket, record st { write_rx = rx }, stats)
          | disconnected ↦ some (w.udp_close socket, record st { write_rx = rx }, stats)
        ]
      ]

  unfoldable pub process_udp_read :
      ℕ
      → w.UdpSocket
      → UdpSocketState w
      → TunnelStats
      → Option (w.UdpSocket × UdpSocketState w × TunnelStats)
  process_udp_read zero socket st stats = none
  process_udp_read (suc fuel) socket st stats =
      let (received, socket') = w.udp_recv_slice socket udp_read_buf_size in
      elim (w.udp_can_recv socket) [
        | false ↦ some (socket, st, stats)
        | true ↦ elim (w.udp.try_reserve st.read_tx) [
          | false ↦
              some
                (socket, st, record stats { udp_rx_dropped = fetch_add_one stats.udp_rx_dropped })
          | true ↦ elim received [
            | none ↦ some (socket', st, stats)
            | some packet ↦
                process_udp_read fuel socket'
                  (record st {
                    read_tx =
                        w.udp.permit_send st.read_tx (packet.0, endpoint_to_socket_addr packet.1);
                  })
                  (record stats { udp_rx_packets = fetch_add_one stats.udp_rx_packets })
          ]
        ]
      ]
