-- ===== src/Stack/TcpWrite.antt =====
-- `process_tcp_write` of src/stack/mod.rs: what an application writes reaches the socket whole and in
-- order.
use tap_tunnel.Prelude.{
  ℕ, zero, suc, ◌<◌, ◌≡◌, ◌≢◌, refl, sym, ap, ◌∙◌, true, false, Option, none, some, [], ◌++◌,
  append_assoc, inl, inr, ◌⊎◌, String, ltb, length, take, drop, take-append-drop, take-of_le,
  concat, arith, Bool-cases, Option-cases,
}
use tap_tunnel.Bytes.{Bytes}
use tap_tunnel.Channel.{TryRecv, item, empty, disconnected, ReceiverLaws}
use tap_tunnel.Stack.Smoltcp.{StreamLaws}
use tap_tunnel.Stack.State.{World, TcpSocketState}
use tap_tunnel.Stack.DataPath.{tcp_write_loop, process_tcp_write}

-- The bytes of a chunk that waits for room.
abbrev pub waiting : Option Bytes → Bytes
waiting none = []
waiting (some bs) = bs

module _ (w : World) (streams : StreamLaws w.net) (inbox : ReceiverLaws w.tcp) where
  open streams use {outgoing, send-ok, send-err, can_send-may_send, outgoing-close}
  open inbox use {queued, try_recv-item, try_recv-empty, try_recv-disconnected}

  -- Everything on its way out, in order: given to the socket, waiting for room, in the channel.
  abbrev pub written : w.TcpSocket × TcpSocketState w → Bytes
  written (socket, st) =
      outgoing socket ++ (waiting st.pending_write ++ concat (queued st.write_rx))

  -- What a write step promises: it ends, and nothing is lost, repeated or reordered.
  abbrev pub WritesAll :
      Option (w.TcpSocket × TcpSocketState w) → w.TcpSocket × TcpSocketState w → Type 0
  WritesAll result before =
      (after : w.TcpSocket × TcpSocketState w) × (result ≡ some after)
      × (written after ≡ written before)

  -- One chunk, of which the socket took `n` bytes.
  chunk :
      (n : ℕ) (out bs rest : Bytes)
      → (out ++ take n bs) ++ (drop n bs ++ rest) ≡ out ++ (bs ++ rest)
  chunk n out bs rest =
      append_assoc out (take n bs) (drop n bs ++ rest)
      ∙ ap (λ t. out ++ t)
          (sym (append_assoc (take n bs) (drop n bs) rest)
            ∙ ap (λ t. t ++ rest) (take-append-drop n bs))

  whole :
      (n : ℕ) (out bs rest : Bytes)
      → ltb n (length bs) ≡ false
      → (out ++ take n bs) ++ rest ≡ out ++ (bs ++ rest)
  whole n out bs rest h =
      append_assoc out (take n bs) rest
      ∙ ap (λ t. out ++ (t ++ rest)) (take-of_le n bs (ground arith))

  -- A chunk that was taken from the channel and offered to the socket.
  write_chunk :
      (fuel : ℕ) (socket : w.TcpSocket) (st : TcpSocketState w) (bs : Bytes) (r : String ⊎ ℕ)
      → st.pending_write ≡ none
      → w.tcp_can_send socket ≡ true
      → (w.tcp.try_recv st.write_rx).0 ≡ item bs
      → (w.tcp_send_slice socket bs).0 ≡ r
      → WritesAll
          (tcp_write_loop w fuel
            (w.tcp_send_slice socket bs).1
            (record st { write_rx = (w.tcp.try_recv st.write_rx).1 }))
          ((w.tcp_send_slice socket bs).1, record st { write_rx = (w.tcp.try_recv st.write_rx).1 })
      → WritesAll (tcp_write_loop w (suc fuel) socket st) (socket, st)
  unfolding tcp_write_loop
  write_chunk fuel socket st bs (inl e) idle can got sent ih =
      absurd (ground (arith, can_send-may_send socket, send-err socket bs e sent))
  write_chunk fuel socket st bs (inr n) idle can got sent ih =
      let taken = try_recv-item st.write_rx bs got in
      let (few, grew) = send-ok socket bs n sent in
      elim (Bool-cases (ltb n (length bs))) [
        | inl part ↦ (
          (
            (w.tcp_send_slice socket bs).1,
            record st {
              write_rx = (w.tcp.try_recv st.write_rx).1;
              pending_write = some (drop n bs);
            },
          ),
          ground arith,
          rw (idle, taken, grew) (chunk n (outgoing socket) bs _),
        )
        | inr all ↦ (
          ih.0,
          ground (arith, ih.1),
          ih.2 ∙ rw (idle, taken, grew) (whole n (outgoing socket) bs _ all),
        )
      ]

  -- The channel had nothing: it is empty, or the application has dropped its end.
  write_nothing :
      (fuel : ℕ) (socket : w.TcpSocket) (st : TcpSocketState w) (r : TryRecv Bytes)
      → ((bs : Bytes) → r ≢ item bs)
      → w.tcp_can_send socket ≡ true
      → (w.tcp.try_recv st.write_rx).0 ≡ r
      → WritesAll (tcp_write_loop w (suc fuel) socket st) (socket, st)
  unfolding tcp_write_loop
  write_nothing fuel socket st (item bs) other can got = absurd (other bs refl)
  write_nothing fuel socket st empty other can got =
      let (before, after) = try_recv-empty st.write_rx got in
      (
        (socket, record st { write_rx = (w.tcp.try_recv st.write_rx).1 }),
        ground arith,
        rw (before, after),
      )
  write_nothing fuel socket st disconnected other can got =
      let (before, after) = try_recv-disconnected st.write_rx got in
      (
        (w.tcp_close socket, record st { write_rx = (w.tcp.try_recv st.write_rx).1 }),
        ground arith,
        rw (before, after, outgoing-close socket),
      )

  tcp_write_loop-WritesAll :
      (fuel : ℕ) (socket : w.TcpSocket) (st : TcpSocketState w)
      → st.pending_write ≡ none
      → length (queued st.write_rx) < fuel
      → WritesAll (tcp_write_loop w fuel socket st) (socket, st)
  tcp_write_loop-WritesAll zero socket st idle enough = absurd (omega arith)
  tcp_write_loop-WritesAll (suc fuel) socket st idle enough =
      elim (Bool-cases (w.tcp_can_send socket)) [
        | inl can ↦ from_channel ((w.tcp.try_recv st.write_rx).0) refl can (λ bs got.
            tcp_write_loop-WritesAll fuel (w.tcp_send_slice socket bs).1
              (record st { write_rx = (w.tcp.try_recv st.write_rx).1 }) idle
              (omega (arith, ap length (try_recv-item st.write_rx bs got))))
        | inr stuck ↦ ((socket, st), unfold tcp_write_loop in ground arith, refl)
      ]
    where
      from_channel :
          (r : TryRecv Bytes)
          → (w.tcp.try_recv st.write_rx).0 ≡ r
          → w.tcp_can_send socket ≡ true
          → ((bs : Bytes)
              → (w.tcp.try_recv st.write_rx).0 ≡ item bs
              → WritesAll
                  (tcp_write_loop w fuel
                    (w.tcp_send_slice socket bs).1
                    (record st { write_rx = (w.tcp.try_recv st.write_rx).1 }))
                  (
                    (w.tcp_send_slice socket bs).1,
                    record st { write_rx = (w.tcp.try_recv st.write_rx).1 },
                  ))
          → WritesAll (tcp_write_loop w (suc fuel) socket st) (socket, st)
      from_channel (item bs) got can ih =
          write_chunk fuel socket st bs (w.tcp_send_slice socket bs).0 idle can got refl (ih bs got)
      from_channel empty got can ih = write_nothing fuel socket st empty (λ bs e. cc) can got
      from_channel disconnected got can ih =
          write_nothing fuel socket st disconnected (λ bs e. cc) can got

  -- The chunk that waited from the round before.
  write_waiting :
      (fuel : ℕ) (socket : w.TcpSocket) (st : TcpSocketState w) (bs : Bytes) (r : String ⊎ ℕ)
      → st.pending_write ≡ some bs
      → length (queued st.write_rx) < fuel
      → w.may_send socket ≡ true
      → (w.tcp_send_slice socket bs).0 ≡ r
      → WritesAll (process_tcp_write w fuel socket st) (socket, st)
  unfolding process_tcp_write
  write_waiting fuel socket st bs (inl e) held enough may sent =
      absurd (ground (arith, send-err socket bs e sent))
  write_waiting fuel socket st bs (inr n) held enough may sent =
      let (few, grew) = send-ok socket bs n sent in
      let rest =
        tcp_write_loop-WritesAll fuel (w.tcp_send_slice socket bs).1
          (record st { pending_write = none }) refl enough in
      elim (Bool-cases (ltb n (length bs))) [
        | inl part ↦ (
          ((w.tcp_send_slice socket bs).1, record st { pending_write = some (drop n bs) }),
          ground arith,
          rw (held, grew) (chunk n (outgoing socket) bs _),
        )
        | inr all ↦ (
          rest.0,
          ground (arith, rest.1),
          rest.2 ∙ rw (held, grew) (whole n (outgoing socket) bs _ all),
        )
      ]

  -- With more fuel than there are chunks in the channel, `process_tcp_write` ends, and what it has
  -- given to the socket, then what waits in `pending_write`, then what is left in the channel, is
  -- the same string of bytes as before.
  pub process_tcp_write-WritesAll :
      (fuel : ℕ) (socket : w.TcpSocket) (st : TcpSocketState w)
      → length (queued st.write_rx) < fuel
      → (after : w.TcpSocket × TcpSocketState w) × (process_tcp_write w fuel socket st ≡ some after)
        × (written after ≡ written (socket, st))
  process_tcp_write-WritesAll fuel socket st enough = elim (Option-cases st.pending_write) [
    | inl idle ↦
        let rest = tcp_write_loop-WritesAll fuel socket st idle enough in
        (rest.0, unfold process_tcp_write in ground (arith, rest.1), rest.2)
    | inr (bs, held) ↦ elim (Bool-cases (w.may_send socket)) [
      | inl may ↦
          write_waiting fuel socket st bs (w.tcp_send_slice socket bs).0 held enough may refl
      | inr never ↦ ((socket, st), unfold process_tcp_write in ground arith, refl)
    ]
  ]
