-- ===== src/Stack/TcpRead.antt =====
-- `process_tcp_read` of src/stack/mod.rs: what a socket received reaches the application's channel
-- whole and in order.
use tap_tunnel.Prelude.{
  ℕ, zero, suc, ◌≤◌, ◌<◌, ◌≡◌, refl, sym, ap, ◌∙◌, true, false, Option, some, List, [], ◌∷◌, ◌++◌,
  append-nil, append_assoc, inl, inr, ◌⊎◌, String, ltb, length, concat, arith, All, Bool-cases,
}
use tap_tunnel.Bytes.{Bytes}
use tap_tunnel.Channel.{SenderLaws}
use tap_tunnel.Stack.Smoltcp.{StreamLaws}
use tap_tunnel.Stack.State.{World, TcpSocketState, tcp_socket_buffer_size}
use tap_tunnel.Stack.DataPath.{process_tcp_read}

-- A chunk that the reader hands to the application: not empty, and within its buffer.
abbrev pub IsChunk : Bytes → Type 0
IsChunk bs = (0 < length bs) × (length bs ≤ tcp_socket_buffer_size)

module _ (w : World) (streams : StreamLaws w.net) (outbox : SenderLaws w.tcp) where
  open streams use {incoming, recv-ok, recv-err}
  open outbox use {delivered, room, try_reserve-room, delivered-permit_send, room-permit_send}

  -- What a read round promises of its result: the chunks that it delivers are, in order, the bytes
  -- that it takes from the socket.
  abbrev pub ReadsAll :
      Option (w.TcpSocket × TcpSocketState w) → w.TcpSocket → TcpSocketState w → Type 0
  ReadsAll result socket st =
      (after : w.TcpSocket × TcpSocketState w) × (chunks : List Bytes) × (result ≡ some after)
      × (delivered after.1.read_tx ≡ delivered st.read_tx ++ chunks)
      × (incoming socket ≡ concat chunks ++ incoming after.0)
      × All IsChunk chunks

  read_chunk :
      (fuel : ℕ) (socket : w.TcpSocket) (st : TcpSocketState w) (r : String ⊎ Bytes)
      → w.tcp_can_recv socket ≡ true
      → w.tcp.try_reserve st.read_tx ≡ true
      → (w.tcp_recv_slice socket tcp_socket_buffer_size).0 ≡ r
      → ((bs : Bytes)
          → ReadsAll
              (process_tcp_read w fuel
                (w.tcp_recv_slice socket tcp_socket_buffer_size).1
                (record st { read_tx = w.tcp.permit_send st.read_tx bs }))
              (w.tcp_recv_slice socket tcp_socket_buffer_size).1
              (record st { read_tx = w.tcp.permit_send st.read_tx bs }))
      → ReadsAll (process_tcp_read w (suc fuel) socket st) socket st
  unfolding process_tcp_read
  read_chunk fuel socket st (inl e) can permit got ih = (
    ((w.tcp_recv_slice socket tcp_socket_buffer_size).1, st),
    [],
    ground arith,
    sym (append-nil _),
    sym (recv-err socket tcp_socket_buffer_size e got),
    tt,
  )
  read_chunk fuel socket st (inr bs) can permit got ih =
      let (few, split) = recv-ok socket tcp_socket_buffer_size bs got in
      elim (Bool-cases (ltb 0 (length bs))) [
        | inl some_bytes ↦
            let (after, chunks, ran, put, took, good) = ih bs in
            (
              after,
              bs ∷ chunks,
              ground (arith, ran),
              put
                  ∙ ap (λ t. t ++ chunks) (delivered-permit_send st.read_tx bs)
                  ∙ append_assoc (delivered st.read_tx) (bs ∷ []) chunks,
              split ∙ ap (λ t. bs ++ t) took ∙ sym (append_assoc bs (concat chunks) _),
              (((ground arith), few), good),
            )
        | inr no_bytes ↦ (
          ((w.tcp_recv_slice socket tcp_socket_buffer_size).1, st),
          [],
          ground arith,
          sym (append-nil _),
          split
              ∙ ap (λ t. t ++ incoming (w.tcp_recv_slice socket tcp_socket_buffer_size).1)
                  (none_read bs no_bytes),
          tt,
        )
      ]
    where
      none_read : (bs : Bytes) → ltb 0 (length bs) ≡ false → bs ≡ []
      none_read [] h = refl
      none_read (b ∷ bs) h = absurd (ground arith)

  -- With more fuel than the channel has permits, `process_tcp_read` ends. It appends to the channel
  -- chunks of 1 to 65535 bytes, and those chunks, joined, followed by what the socket still holds,
  -- are what the socket held before.
  pub process_tcp_read-ReadsAll :
      (fuel : ℕ) (socket : w.TcpSocket) (st : TcpSocketState w)
      → room st.read_tx < fuel
      → (after : w.TcpSocket × TcpSocketState w) × (chunks : List Bytes) × (process_tcp_read w fuel
            socket st
          ≡ some after)
        × (delivered after.1.read_tx ≡ delivered st.read_tx ++ chunks)
        × (incoming socket ≡ concat chunks ++ incoming after.0)
        × All IsChunk chunks
  process_tcp_read-ReadsAll zero socket st enough = absurd (omega arith)
  process_tcp_read-ReadsAll (suc fuel) socket st enough =
      elim (Bool-cases (w.tcp_can_recv socket)) [
        | inr drained ↦ stopped (unfold process_tcp_read in ground arith)
        | inl can ↦ elim (Bool-cases (w.tcp.try_reserve st.read_tx)) [
          | inr full ↦ stopped (unfold process_tcp_read in ground arith)
          | inl permit ↦
              read_chunk fuel socket st (w.tcp_recv_slice socket tcp_socket_buffer_size).0 can
                permit refl
                (λ bs.
                  process_tcp_read-ReadsAll fuel (w.tcp_recv_slice socket tcp_socket_buffer_size).1
                    (record st { read_tx = w.tcp.permit_send st.read_tx bs })
                    (ground (arith, try_reserve-room st.read_tx, room-permit_send st.read_tx bs)))
        ]
      ]
    where
      stopped :
          process_tcp_read w (suc fuel) socket st ≡ some (socket, st)
          → ReadsAll (process_tcp_read w (suc fuel) socket st) socket st
      stopped ran = ((socket, st), [], ran, sym (append-nil _), refl, tt)
