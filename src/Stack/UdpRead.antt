-- ===== src/Stack/UdpRead.antt =====
-- `process_udp_read` of src/stack/mod.rs: datagrams to an application, and their counters.
use tap_tunnel.Prelude.{
  ℕ, zero, suc, ◌+◌, ◌^◌, ◌≤◌, ◌<◌, ◌≡◌, refl, sym, ap, ◌∙◌, true, Option, none, some, List, [],
  ◌∷◌, ◌++◌, append-nil, append_assoc, inl, inr, ◌⊎◌, false, length, arith, Bool-cases,
  Option-cases, map,
}
use tap_tunnel.Bytes.{Bytes}
use tap_tunnel.Net.{IpEndpoint, endpoint_to_socket_addr}
use tap_tunnel.Channel.{SenderLaws}
use tap_tunnel.Stats.{
  TunnelStats, fetch_add_one, fetch_add, fetch_add-suc, fetch_add-zero, fetch_add-one,
}
use tap_tunnel.Stack.State.{World, UdpSocketState, Datagram, udp_read_buf_size}
use tap_tunnel.Stack.DataPath.{process_udp_read}

-- The datagrams that a UDP socket has received: `recv_slice` takes the first, and drops it when it
-- does not fit the buffer.
pub record PacketLaws (w : World) : Type 0 where
  pub waiting_packets : w.UdpSocket → List (Bytes × IpEndpoint)
  pub recv-packet :
      (s : w.UdpSocket) (n : ℕ) (p : Bytes × IpEndpoint)
      → (w.udp_recv_slice s n).0 ≡ some p
      → waiting_packets s ≡ p ∷ waiting_packets (w.udp_recv_slice s n).1
  -- A refusal drops at most the first datagram.
  pub recv-refused :
      (s : w.UdpSocket) (n : ℕ)
      → (w.udp_recv_slice s n).0 ≡ none
      → (dropped : List (Bytes × IpEndpoint)) × (waiting_packets s
          ≡ dropped ++ waiting_packets (w.udp_recv_slice s n).1)
        × (length dropped ≤ 1)

-- A datagram as the application gets it.
abbrev pub from_endpoint : Bytes × IpEndpoint → Datagram
from_endpoint p = (p.0, endpoint_to_socket_addr p.1)

module _ (w : World) (packets : PacketLaws w) (outbox : SenderLaws w.udp) where
  open packets use {waiting_packets, recv-packet, recv-refused}
  open outbox use {delivered, room, try_reserve-room, delivered-permit_send, room-permit_send}

  -- Why the reading ended, with `full` drops counted: the socket has no datagram, the channel has no
  -- room for the next, or the socket, the channel having room, refused one.
  abbrev pub Ends :
      (full : ℕ) (lost : List (Bytes × IpEndpoint)) → w.UdpSocket → UdpSocketState w → Type 0
  Ends full lost socket st =
      ((w.udp_can_recv socket ≡ false) × (full ≡ 0) × (lost ≡ []))
      ⊎ ((w.udp_can_recv socket ≡ true)
          × (w.udp.try_reserve st.read_tx ≡ false)
          × (full ≡ 1)
          × (lost ≡ []))
      ⊎ ((before : w.UdpSocket) × (w.udp.try_reserve st.read_tx ≡ true)
          × (w.udp_recv_slice before udp_read_buf_size ≡ (none, socket))
          × (full ≡ 0))

  -- What is read: `taken` went to the channel, in order and from their senders; `lost` vanished.
  -- `udp_rx_packets` counted the first, `udp_rx_dropped` grew by `full`.
  abbrev pub Delivers :
      Option (w.UdpSocket × UdpSocketState w × TunnelStats)
      → w.UdpSocket
      → UdpSocketState w
      → TunnelStats
      → Type 0
  Delivers result socket st stats =
      (after : w.UdpSocket × UdpSocketState w × TunnelStats) × (taken lost : List
        (Bytes × IpEndpoint))
      × (full : ℕ) × (result ≡ some after)
      × (delivered after.1.read_tx ≡ delivered st.read_tx ++ map from_endpoint taken)
      × (waiting_packets socket ≡ taken ++ (lost ++ waiting_packets after.0))
      × (length lost + full ≤ 1)
      × Ends full lost after.0 after.1
      × (after.2 ≡ record stats {
        udp_rx_packets = fetch_add (length taken) stats.udp_rx_packets;
        udp_rx_dropped = fetch_add full stats.udp_rx_dropped;
      })

  read_packet :
      (fuel : ℕ) (socket : w.UdpSocket) (st : UdpSocketState w) (stats : TunnelStats)
      (p : Bytes × IpEndpoint)
      → w.udp_can_recv socket ≡ true
      → w.udp.try_reserve st.read_tx ≡ true
      → (w.udp_recv_slice socket udp_read_buf_size).0 ≡ some p
      → Delivers
          (process_udp_read w fuel
            (w.udp_recv_slice socket udp_read_buf_size).1
            (record st { read_tx = w.udp.permit_send st.read_tx (from_endpoint p) })
            (record stats { udp_rx_packets = fetch_add_one stats.udp_rx_packets }))
          (w.udp_recv_slice socket udp_read_buf_size).1
          (record st { read_tx = w.udp.permit_send st.read_tx (from_endpoint p) })
          (record stats { udp_rx_packets = fetch_add_one stats.udp_rx_packets })
      → Delivers (process_udp_read w (suc fuel) socket st stats) socket st stats
  unfolding process_udp_read
  read_packet fuel socket st stats p can permit got
        (after, taken, lost, full, ran, put, took, few, why, e) =
      (
        after,
        p ∷ taken,
        lost,
        full,
        ground (arith, ran),
        put
            ∙ ap (λ t. t ++ map from_endpoint taken)
                (delivered-permit_send st.read_tx (from_endpoint p))
            ∙ append_assoc (delivered st.read_tx) (from_endpoint p ∷ []) (map from_endpoint taken),
        recv-packet socket udp_read_buf_size p got ∙ ap (λ t. p ∷ t) took,
        few,
        why,
        e ∙ ground (arith, fetch_add-suc (length taken) stats.udp_rx_packets),
      )

  -- No more than the first packet is lost, and then the loop ends.
  nothing_taken :
      (st : UdpSocketState w) (stats stats' : TunnelStats) (socket socket' : w.UdpSocket)
      (lost : List (Bytes × IpEndpoint)) (full : ℕ)
      (result : Option (w.UdpSocket × UdpSocketState w × TunnelStats))
      → result ≡ some (socket', st, stats')
      → waiting_packets socket ≡ lost ++ waiting_packets socket'
      → length lost + full ≤ 1
      → Ends full lost socket' st
      → stats' ≡ record stats {
        udp_rx_packets = fetch_add 0 stats.udp_rx_packets;
        udp_rx_dropped = fetch_add full stats.udp_rx_dropped;
      }
      → Delivers result socket st stats
  nothing_taken st stats stats' socket socket' lost full result ran same few why e =
      ((socket', st, stats'), [], lost, full, ran, sym (append-nil _), same, few, why, e)

  -- With more fuel than the channel has permits, `process_udp_read` ends. It sends the datagrams
  -- at the front of the socket's queue to the application, in order and with their senders'
  -- addresses, and counts them in `udp_rx_packets`. At most one more datagram leaves the queue, when
  -- the socket refuses to hand it over, and no counter shows it. `udp_rx_dropped` grows by 1 exactly
  -- when the socket still has a datagram and the channel has no room for it, and then no datagram is
  -- lost; if it does not grow, the socket has no datagram left or refused one. The two counters
  -- start below 2^64.
  pub process_udp_read-Delivers :
      (fuel : ℕ) (socket : w.UdpSocket) (st : UdpSocketState w) (stats : TunnelStats)
      → room st.read_tx < fuel
      → stats.udp_rx_packets < 2 ^ 64
      → stats.udp_rx_dropped < 2 ^ 64
      → Delivers (process_udp_read w fuel socket st stats) socket st stats
  process_udp_read-Delivers zero socket st stats enough hp hd = absurd (omega arith)
  process_udp_read-Delivers (suc fuel) socket st stats enough hp hd =
      elim (Bool-cases (w.udp_can_recv socket)) [
        | inr drained ↦
            nothing_taken st stats stats socket socket [] 0 _
              (unfold process_udp_read in ground arith) refl (omega arith)
              (inl (drained, refl, refl))
              (ground
                (arith, fetch_add-zero stats.udp_rx_packets, fetch_add-zero stats.udp_rx_dropped))
        | inl can ↦ elim (Bool-cases (w.udp.try_reserve st.read_tx)) [
          | inr full ↦
              nothing_taken st stats
                (record stats { udp_rx_dropped = fetch_add_one stats.udp_rx_dropped }) socket socket
                [] 1 _ (unfold process_udp_read in ground arith) refl (omega arith)
                (inr (inl (can, full, refl, refl)))
                (ground (
                  arith,
                  fetch_add-zero stats.udp_rx_packets hp,
                  fetch_add-one stats.udp_rx_dropped,
                ))
          | inl permit ↦ elim (Option-cases (w.udp_recv_slice socket udp_read_buf_size).0) [
            | inl refused ↦
                let (lost, same, few) = recv-refused socket udp_read_buf_size refused in
                nothing_taken st stats stats socket (w.udp_recv_slice socket udp_read_buf_size).1
                  lost 0 _ (unfold process_udp_read in ground arith) same (omega arith)
                  (inr (
                    inr (
                      socket,
                      permit,
                      ap (λ t. (t, (w.udp_recv_slice socket udp_read_buf_size).1)) refused,
                      refl,
                    )))
                  (ground (
                    arith,
                    fetch_add-zero stats.udp_rx_packets,
                    fetch_add-zero stats.udp_rx_dropped,
                  ))
            | inr (p, got) ↦ read_packet fuel socket st stats p can permit got (
                process_udp_read-Delivers fuel (w.udp_recv_slice socket udp_read_buf_size).1
                  (record st { read_tx = w.udp.permit_send st.read_tx (from_endpoint p) })
                  (record stats { udp_rx_packets = fetch_add_one stats.udp_rx_packets })
                  (ground (
                    arith,
                    try_reserve-room st.read_tx,
                    room-permit_send st.read_tx (from_endpoint p),
                  ))
                  (unfold fetch_add_one in omega arith) hd)
          ]
        ]
      ]
