-- ===== src/Stack/UdpWrite.antt =====
-- `process_udp_write` of src/stack/mod.rs: datagrams from an application, and their counters.
use tap_tunnel.Prelude.{
  ℕ, zero, suc, ◌^◌, ◌<◌, ◌≡◌, refl, ap, ◌∙◌, true, Option, some, inl, inr, length, arith, List,
  ◌⊎◌, false, [], ◌∷◌, ◌++◌, if◌then◌else◌, Bool-cases,
}
use tap_tunnel.Net.{socket_addr_to_endpoint}
use tap_tunnel.Channel.{TryRecv, item, empty, disconnected, ReceiverLaws}
use tap_tunnel.Stats.{TunnelStats, fetch_add_one, fetch_add, fetch_add-suc, fetch_add-zero}
use tap_tunnel.Stack.State.{World, UdpSocketState, Datagram}
use tap_tunnel.Stack.DataPath.{process_udp_write}

module _ (w : World) (inbox : ReceiverLaws w.udp) where
  open inbox use {queued, try_recv-item, try_recv-empty, try_recv-disconnected}

  abbrev Outcome : Type 0
  Outcome = w.UdpSocket × UdpSocketState w × TunnelStats

  -- The packets that the socket accepts, and those that it refuses, when it is given them in turn.
  unfoldable pub answers : w.UdpSocket → List Datagram → ℕ × ℕ
  answers socket [] = (0, 0)
  answers socket (p ∷ ps) =
      let (accepted, next) = w.udp_send_slice socket p.0 (socket_addr_to_endpoint p.1) in
      let (sent, failed) = answers next ps in
      if accepted then (suc sent, failed) else (sent, suc failed)

  -- The packets that left the channel, from its front, until the socket takes no more or the channel
  -- is empty, and the counts of the socket's answers to them; no other counter moved.
  abbrev pub CountsAll : Option Outcome → w.UdpSocket → UdpSocketState w → TunnelStats → Type 0
  CountsAll result socket st stats =
      (after : Outcome) × (packets : List Datagram) × (result ≡ some after)
      × (queued st.write_rx ≡ packets ++ queued after.1.write_rx)
      × ((w.udp_can_send after.0 ≡ false) ⊎ (queued after.1.write_rx ≡ []))
      × (after.2 ≡ record stats {
        udp_tx_packets = fetch_add (answers socket packets).0 stats.udp_tx_packets;
        udp_tx_failed = fetch_add (answers socket packets).1 stats.udp_tx_failed;
      })

  -- A counter holds 64 bits.
  abbrev pub IsCounter : ℕ → Type 0
  IsCounter n = n < 2 ^ 64

  stopped :
      (socket : w.UdpSocket) (st : UdpSocketState w) (stats : TunnelStats) (result : Option Outcome)
      (after : Outcome)
      → IsCounter stats.udp_tx_packets
      → IsCounter stats.udp_tx_failed
      → result ≡ some after
      → queued st.write_rx ≡ queued after.1.write_rx
      → (w.udp_can_send after.0 ≡ false) ⊎ (queued after.1.write_rx ≡ [])
      → after.2 ≡ stats
      → CountsAll result socket st stats
  unfolding answers
  stopped socket st stats result after p f ran same ends e = (
    after,
    [],
    ran,
    same,
    ends,
    e ∙ ground (arith, fetch_add-zero stats.udp_tx_packets, fetch_add-zero stats.udp_tx_failed),
  )

  -- One datagram from the channel, accepted or refused by the socket.
  write_packet :
      (fuel : ℕ) (socket : w.UdpSocket) (st : UdpSocketState w) (stats : TunnelStats) (p : Datagram)
      → w.udp_can_send socket ≡ true
      → (w.udp.try_recv st.write_rx).0 ≡ item p
      → ((stats' : TunnelStats)
          → IsCounter stats'.udp_tx_packets
          → IsCounter stats'.udp_tx_failed
          → CountsAll
              (process_udp_write w fuel
                (w.udp_send_slice socket p.0 (socket_addr_to_endpoint p.1)).1
                (record st { write_rx = (w.udp.try_recv st.write_rx).1 })
                stats')
              (w.udp_send_slice socket p.0 (socket_addr_to_endpoint p.1)).1
              (record st { write_rx = (w.udp.try_recv st.write_rx).1 })
              stats')
      → IsCounter stats.udp_tx_packets
      → IsCounter stats.udp_tx_failed
      → CountsAll (process_udp_write w (suc fuel) socket st stats) socket st stats
  unfolding process_udp_write answers
  write_packet fuel socket st stats p can got ih hp hf =
      let taken = try_recv-item st.write_rx p got in
      elim (Bool-cases (w.udp_send_slice socket p.0 (socket_addr_to_endpoint p.1)).0) [
        | inl accepted ↦
            let (after, packets, ran, left, ends, e) =
              ih (record stats { udp_tx_packets = fetch_add_one stats.udp_tx_packets })
                (unfold fetch_add_one in omega arith) hf in
            (
              after,
              p ∷ packets,
              ground (arith, ran),
              taken ∙ ap (λ t. p ∷ t) left,
              ends,
              e
                  ∙ ground (
                    arith,
                    fetch_add-suc
                        (answers (w.udp_send_slice socket p.0 (socket_addr_to_endpoint p.1)).1
                          packets).0
                        stats.udp_tx_packets,
                  ),
            )
        | inr refused ↦
            let (after, packets, ran, left, ends, e) =
              ih (record stats { udp_tx_failed = fetch_add_one stats.udp_tx_failed }) hp
                (unfold fetch_add_one in omega arith) in
            (
              after,
              p ∷ packets,
              ground (arith, ran),
              taken ∙ ap (λ t. p ∷ t) left,
              ends,
              e
                  ∙ ground (
                    arith,
                    fetch_add-suc
                        (answers (w.udp_send_slice socket p.0 (socket_addr_to_endpoint p.1)).1
                          packets).1
                        stats.udp_tx_failed,
                  ),
            )
      ]

  -- With more fuel than there are datagrams in the channel, `process_udp_write` ends. It takes
  -- datagrams from the front of the channel until the channel is empty or the socket can send no
  -- more, and counts each once, modulo 2^64: under
  -- `udp_tx_packets` if the socket, given them in this order, accepts it, under `udp_tx_failed` if
  -- not. No other counter moves. The two counters start below 2^64.
  pub process_udp_write-CountsAll :
      (fuel : ℕ) (socket : w.UdpSocket) (st : UdpSocketState w) (stats : TunnelStats)
      → length (queued st.write_rx) < fuel
      → IsCounter stats.udp_tx_packets
      → IsCounter stats.udp_tx_failed
      → CountsAll (process_udp_write w fuel socket st stats) socket st stats
  process_udp_write-CountsAll zero socket st stats enough hp hf = absurd (omega arith)
  process_udp_write-CountsAll (suc fuel) socket st stats enough hp hf =
      elim (Bool-cases (w.udp_can_send socket)) [
        | inr never ↦
            stopped socket st stats _ (socket, st, stats) hp hf
              (unfold process_udp_write in ground arith) refl (inl never) refl
        | inl can ↦ from_channel (w.udp.try_recv st.write_rx).0 refl can (λ p got.
            write_packet fuel socket st stats p can got
              (λ stats' hp' hf'.
                process_udp_write-CountsAll fuel
                  (w.udp_send_slice socket p.0 (socket_addr_to_endpoint p.1)).1
                  (record st { write_rx = (w.udp.try_recv st.write_rx).1 }) stats'
                  (omega (arith, ap length (try_recv-item st.write_rx p got))) hp' hf')
              hp hf)
      ]
    where
      from_channel :
          (r : TryRecv Datagram)
          → (w.udp.try_recv st.write_rx).0 ≡ r
          → w.udp_can_send socket ≡ true
          → ((p : Datagram)
              → (w.udp.try_recv st.write_rx).0 ≡ item p
              → CountsAll (process_udp_write w (suc fuel) socket st stats) socket st stats)
          → CountsAll (process_udp_write w (suc fuel) socket st stats) socket st stats
      from_channel (item p) got can packet = packet p got
      from_channel empty got can packet =
          stopped socket st stats _
            (socket, record st { write_rx = (w.udp.try_recv st.write_rx).1 }, stats) hp hf
            (unfold process_udp_write in ground arith)
            (let (before, after) = try_recv-empty st.write_rx got in rw (before, after) refl)
            (inr (try_recv-empty st.write_rx got).1) refl
      from_channel disconnected got can packet =
          stopped socket st stats _
            (w.udp_close socket, record st { write_rx = (w.udp.try_recv st.write_rx).1 }, stats) hp
            hf (unfold process_udp_write in ground arith)
            (let (before, after) = try_recv-disconnected st.write_rx got in rw (before, after) refl)
            (inr (try_recv-disconnected st.write_rx got).1) refl
