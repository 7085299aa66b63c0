-- ===== src/Stack/Rounds/Tcp.antt =====
-- The rounds over a TCP socket of src/stack/mod.rs end, whatever smoltcp answers.
use tap_tunnel.Prelude.{
  ℕ, zero, suc, ◌<◌, ◌≡◌, refl, ap, true, some, none, length, arith, ltb, drop, Bool-cases,
  Option-cases, inl, inr, ◌⊎◌, String,
}
use tap_tunnel.Bytes.{Bytes}
use tap_tunnel.Channel.{TryRecv, item, empty, disconnected, ReceiverLaws, SenderLaws}
use tap_tunnel.Stack.State.{World, TcpSocketState, tcp_socket_buffer_size}
use tap_tunnel.Stack.DataPath.{tcp_write_loop, process_tcp_write, process_tcp_read}
use tap_tunnel.Stack.Rounds.{TcpWritten, TcpEnded}

module _ (w : World) (inbox : ReceiverLaws w.tcp) where
  open inbox use {queued, try_recv-item}

  tcp_write_got :
      (fuel : ℕ) (socket : w.TcpSocket) (st : TcpSocketState w) (r : TryRecv Bytes)
      → (w.tcp.try_recv st.write_rx).0 ≡ r
      → w.tcp_can_send socket ≡ true
      → ((bs : Bytes)
          → (w.tcp.try_recv st.write_rx).0 ≡ item bs
          → TcpWritten w
              (tcp_write_loop w fuel
                (w.tcp_send_slice socket bs).1
                (record st { write_rx = (w.tcp.try_recv st.write_rx).1 }))
              st)
      → TcpWritten w (tcp_write_loop w (suc fuel) socket st) st
  unfolding tcp_write_loop
  tcp_write_got fuel socket st empty got can ih =
      ((socket, record st { write_rx = (w.tcp.try_recv st.write_rx).1 }), ground arith, refl)
  tcp_write_got fuel socket st disconnected got can ih = (
    (w.tcp_close socket, record st { write_rx = (w.tcp.try_recv st.write_rx).1 }),
    ground arith,
    refl,
  )
  tcp_write_got fuel socket st (item bs) got can ih =
      by_result (w.tcp_send_slice socket bs).0 refl (ih bs got)
    where
      by_result :
          (s : String ⊎ ℕ)
          → (w.tcp_send_slice socket bs).0 ≡ s
          → TcpWritten w
              (tcp_write_loop w fuel
                (w.tcp_send_slice socket bs).1
                (record st { write_rx = (w.tcp.try_recv st.write_rx).1 }))
              st
          → TcpWritten w (tcp_write_loop w (suc fuel) socket st) st
      by_result (inl e) sent rest = (
        ((w.tcp_send_slice socket bs).1, record st { write_rx = (w.tcp.try_recv st.write_rx).1 }),
        ground arith,
        refl,
      )
      by_result (inr n) sent (after, ran, kept) = elim (Bool-cases (ltb n (length bs))) [
        | inl part ↦ (
          (
            (w.tcp_send_slice socket bs).1,
            record st {
              write_rx = (w.tcp.try_recv st.write_rx).1;
              pending_write = some (drop n bs);
            },
          ),
          ground arith,
          refl,
        )
        | inr all ↦ (after, ground arith, kept)
      ]

  tcp_write_loop-TcpWritten :
      (fuel : ℕ) (socket : w.TcpSocket) (st : TcpSocketState w)
      → length (queued st.write_rx) < fuel
      → TcpWritten w (tcp_write_loop w fuel socket st) st
  tcp_write_loop-TcpWritten zero socket st enough = absurd (omega arith)
  tcp_write_loop-TcpWritten (suc fuel) socket st enough =
      elim (Bool-cases (w.tcp_can_send socket)) [
        | inl can ↦ tcp_write_got fuel socket st (w.tcp.try_recv st.write_rx).0 refl can (λ bs got.
            tcp_write_loop-TcpWritten fuel (w.tcp_send_slice socket bs).1
              (record st { write_rx = (w.tcp.try_recv st.write_rx).1 })
              (omega (arith, ap length (try_recv-item st.write_rx bs got))))
        | inr stuck ↦ ((socket, st), unfold tcp_write_loop in ground arith, refl)
      ]

  pub process_tcp_write-TcpWritten :
      (fuel : ℕ) (socket : w.TcpSocket) (st : TcpSocketState w)
      → length (queued st.write_rx) < fuel
      → TcpWritten w (process_tcp_write w fuel socket st) st
  unfolding process_tcp_write
  process_tcp_write-TcpWritten fuel socket st enough = elim (Option-cases st.pending_write) [
    | inl idle ↦
        let (after, ran, kept) = tcp_write_loop-TcpWritten fuel socket st enough in
        (after, ground (arith, ran), kept)
    | inr (bs, held) ↦ elim (Bool-cases (w.may_send socket)) [
      | inr never ↦ ((socket, st), ground arith, refl)
      | inl may ↦ by_result bs held may (w.tcp_send_slice socket bs).0 refl (
          tcp_write_loop-TcpWritten fuel (w.tcp_send_slice socket bs).1
            (record st { pending_write = none }) enough)
    ]
  ]
    where
      by_result :
          (bs : Bytes)
          → st.pending_write ≡ some bs
          → w.may_send socket ≡ true
          → (s : String ⊎ ℕ) → (w.tcp_send_slice socket bs).0 ≡ s
          → TcpWritten w
              (tcp_write_loop w fuel
                (w.tcp_send_slice socket bs).1
                (record st { pending_write = none }))
              (record st { pending_write = none })
          → TcpWritten w (process_tcp_write w fuel socket st) st
      by_result bs held may (inl e) sent rest =
          (((w.tcp_send_slice socket bs).1, record st { pending_write = none }), ground arith, refl)
      by_result bs held may (inr n) sent (after, ran, kept) =
          elim (Bool-cases (ltb n (length bs))) [
            | inl part ↦ (
              ((w.tcp_send_slice socket bs).1, record st { pending_write = some (drop n bs) }),
              ground arith,
              refl,
            )
            | inr all ↦ (after, ground (arith, ran), kept)
          ]

module _ (w : World) (outbox : SenderLaws w.tcp) where
  open outbox use {room, room-permit_send, try_reserve-room}

  tcp_read_got :
      (fuel : ℕ) (socket : w.TcpSocket) (st : TcpSocketState w) (r : String ⊎ Bytes)
      → (w.tcp_recv_slice socket tcp_socket_buffer_size).0 ≡ r
      → w.tcp_can_recv socket ≡ true
      → w.tcp.try_reserve st.read_tx ≡ true
      → ((bs : Bytes)
          → TcpEnded w (
              process_tcp_read w fuel
                (w.tcp_recv_slice socket tcp_socket_buffer_size).1
                (record st { read_tx = w.tcp.permit_send st.read_tx bs })))
      → TcpEnded w (process_tcp_read w (suc fuel) socket st)
  unfolding process_tcp_read
  tcp_read_got fuel socket st (inl e) got can reserved ih =
      (((w.tcp_recv_slice socket tcp_socket_buffer_size).1, st), ground arith)
  tcp_read_got fuel socket st (inr bs) got can reserved ih =
      let (after, ran) = ih bs in
      elim (Bool-cases (ltb 0 (length bs))) [
        | inl some_bytes ↦ (after, ground (arith, ran))
        | inr nothing ↦ (((w.tcp_recv_slice socket tcp_socket_buffer_size).1, st), ground arith)
      ]

  pub process_tcp_read-TcpEnded :
      (fuel : ℕ) (socket : w.TcpSocket) (st : TcpSocketState w)
      → room st.read_tx < fuel
      → TcpEnded w (process_tcp_read w fuel socket st)
  process_tcp_read-TcpEnded zero socket st enough = absurd (omega arith)
  process_tcp_read-TcpEnded (suc fuel) socket st enough =
      elim (Bool-cases (w.tcp_can_recv socket)) [
        | inr drained ↦ ((socket, st), unfold process_tcp_read in ground arith)
        | inl can ↦ elim (Bool-cases (w.tcp.try_reserve st.read_tx)) [
          | inr full ↦ ((socket, st), unfold process_tcp_read in ground arith)
          | inl reserved ↦
              let some_room : 0 < room st.read_tx =
                ground (arith, try_reserve-room st.read_tx, reserved) in
              tcp_read_got fuel socket st (w.tcp_recv_slice socket tcp_socket_buffer_size).0 refl
                can reserved
                (λ bs.
                  process_tcp_read-TcpEnded fuel (w.tcp_recv_slice socket tcp_socket_buffer_size).1
                    (record st { read_tx = w.tcp.permit_send st.read_tx bs })
                    (omega (arith, room-permit_send st.read_tx bs some_room)))
        ]
      ]
