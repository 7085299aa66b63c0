-- ===== src/Stack/Rounds/Udp.antt =====
-- The rounds over a UDP socket of src/stack/mod.rs end, whatever smoltcp answers.
use tap_tunnel.Prelude.{
  ℕ, zero, suc, ◌<◌, ◌≡◌, refl, ap, true, length, arith, Bool-cases, Option-cases, inl, inr,
}
use tap_tunnel.Bytes.{Bytes}
use tap_tunnel.Channel.{TryRecv, item, empty, disconnected, ReceiverLaws, SenderLaws}
use tap_tunnel.Stats.{TunnelStats, fetch_add_one}
use tap_tunnel.Net.{SocketAddr, socket_addr_to_endpoint, endpoint_to_socket_addr}
use tap_tunnel.Stack.State.{World, UdpSocketState, udp_read_buf_size}
use tap_tunnel.Stack.DataPath.{process_udp_write, process_udp_read}
use tap_tunnel.Stack.Rounds.{UdpWritten, UdpEnded}

module _ (w : World) (inbox : ReceiverLaws w.udp) where
  open inbox use {queued, try_recv-item}

  pub process_udp_write-UdpWritten :
      (fuel : ℕ) (socket : w.UdpSocket) (st : UdpSocketState w) (stats : TunnelStats)
      → length (queued st.write_rx) < fuel
      → UdpWritten w (process_udp_write w fuel socket st stats) st
  unfolding process_udp_write
  process_udp_write-UdpWritten zero socket st stats enough = absurd (omega arith)
  process_udp_write-UdpWritten (suc fuel) socket st stats enough =
      elim (Bool-cases (w.udp_can_send socket)) [
        | inr never ↦ ((socket, st, stats), ground arith, refl)
        | inl can ↦ by_message (w.udp.try_recv st.write_rx).0 refl can (λ p got stats'.
            process_udp_write-UdpWritten fuel
              (w.udp_send_slice socket p.0 (socket_addr_to_endpoint p.1)).1
              (record st { write_rx = (w.udp.try_recv st.write_rx).1 }) stats'
              (omega (arith, ap length (try_recv-item st.write_rx p got))))
      ]
    where
      by_message :
          (r : TryRecv (Bytes × SocketAddr))
          → (w.udp.try_recv st.write_rx).0 ≡ r
          → w.udp_can_send socket ≡ true
          → ((p : Bytes × SocketAddr)
              → (w.udp.try_recv st.write_rx).0 ≡ item p
              → (stats' : TunnelStats)
              → UdpWritten w
                  (process_udp_write w fuel
                    (w.udp_send_slice socket p.0 (socket_addr_to_endpoint p.1)).1
                    (record st { write_rx = (w.udp.try_recv st.write_rx).1 })
                    stats')
                  st)
          → UdpWritten w (process_udp_write w (suc fuel) socket st stats) st
      by_message empty got can ih = (
        (socket, record st { write_rx = (w.udp.try_recv st.write_rx).1 }, stats),
        ground arith,
        refl,
      )
      by_message disconnected got can ih = (
        (w.udp_close socket, record st { write_rx = (w.udp.try_recv st.write_rx).1 }, stats),
        ground arith,
        refl,
      )
      by_message (item p) got can ih =
          elim (Bool-cases (w.udp_send_slice socket p.0 (socket_addr_to_endpoint p.1)).0) [
            | inl good ↦
                let (after, ran, kept) =
                  ih p got (record stats { udp_tx_packets = fetch_add_one stats.udp_tx_packets }) in
                (after, ground (arith, ran), kept)
            | inr bad ↦
                let (after, ran, kept) =
                  ih p got (record stats { udp_tx_failed = fetch_add_one stats.udp_tx_failed }) in
                (after, ground (arith, ran), kept)
          ]

module _ (w : World) (outbox : SenderLaws w.udp) where
  open outbox use {room, room-permit_send, try_reserve-room}

  pub process_udp_read-UdpEnded :
      (fuel : ℕ) (socket : w.UdpSocket) (st : UdpSocketState w) (stats : TunnelStats)
      → room st.read_tx < fuel
      → UdpEnded w (process_udp_read w fuel socket st stats)
  unfolding process_udp_read
  process_udp_read-UdpEnded zero socket st stats enough = absurd (omega arith)
  process_udp_read-UdpEnded (suc fuel) socket st stats enough =
      elim (Bool-cases (w.udp_can_recv socket)) [
        | inr drained ↦ ((socket, st, stats), ground arith)
        | inl can ↦ elim (Bool-cases (w.udp.try_reserve st.read_tx)) [
          | inr full ↦ (
            (socket, st, record stats { udp_rx_dropped = fetch_add_one stats.udp_rx_dropped }),
            ground arith,
          )
          | inl reserved ↦ elim (Option-cases (w.udp_recv_slice socket udp_read_buf_size).0) [
            | inl nothing ↦
                (((w.udp_recv_slice socket udp_read_buf_size).1, st, stats), ground arith)
            | inr (packet, got) ↦
                let some_room : 0 < room st.read_tx =
                  ground (arith, try_reserve-room st.read_tx, reserved) in
                let message : Bytes × SocketAddr = (packet.0, endpoint_to_socket_addr packet.1) in
                let (after, ran) =
                  process_udp_read-UdpEnded fuel (w.udp_recv_slice socket udp_read_buf_size).1
                    (record st { read_tx = w.udp.permit_send st.read_tx message })
                    (record stats { udp_rx_packets = fetch_add_one stats.udp_rx_packets })
                    (omega (arith, room-permit_send st.read_tx message some_room)) in
                (after, ground (arith, ran))
          ]
        ]
      ]
