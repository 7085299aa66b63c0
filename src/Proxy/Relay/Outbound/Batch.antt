-- ===== src/Proxy/Relay/Outbound/Batch.antt =====
-- What one pass of the task of proxy/src/main.rs that writes the socket puts on the wire.
use tap_tunnel.Prelude.{
  ℕ, zero, suc, ◌%◌, ◌^◌, ◌<◌, ◌≡◌, refl, sym, ap, ◌∙◌, Bool, true, Option, some, List, ◌∷◌, ◌++◌,
  append-nil, append_assoc, length, inl, inr, ◌⊎◌, arith,
}
use tap_tunnel.Io.{IoResult, IoError, ok, err, IoResult-cases}
use tap_tunnel.Bytes.{Bytes, u32_to_be}
use tap_tunnel.Channel.{Mpsc, ReceiverLaws, TryRecv, item, empty, disconnected}
use tap_tunnel.Protocol.Streams.{framed, framed_all, framed_all-append}
use tap_tunnel.Proxy.Relay.Outbound.{
  BufWriter, tap_frame, response, write_message, drain, Outbound, drain_all, write_batch,
  outbound_pass,
}

-- What the writer has taken, and what of it has reached the socket. A write that succeeds has taken
-- all of its bytes; after a flush that succeeds all that was taken has reached the socket.
pub record BufWriterLaws {W : Type 0} (out : BufWriter W) : Type 0 where
  pub taken : W → Bytes
  pub passed : W → Bytes
  pub write_all-taken :
      (w w' : W) (bs : Bytes) → out.write_all w bs ≡ ok w' → taken w' ≡ taken w ++ bs
  pub flush-passed : (w w' : W) → out.flush w ≡ ok w' → passed w' ≡ taken w

module _ {W : Type 0} (out : BufWriter W) (laws : BufWriterLaws out) where
  open laws use {taken, write_all-taken}

  -- An error that a call on the socket gives.
  abbrev pub Fails : IoError → Type 0
  Fails e =
      ((w : W) × (bs : Bytes) × (out.write_all w bs ≡ err e)) ⊎ ((w : W) × (out.flush w ≡ err e))

  -- A call on the socket has failed, or all of `bs` was taken.
  abbrev pub Wrote : IoResult W → W → Bytes → Type 0
  Wrote r w bs =
      ((e : IoError) × (r ≡ err e) × Fails e)
      ⊎ ((w' : W) × (r ≡ ok w') × (taken w' ≡ taken w ++ bs))

  pub write_message-Wrote : (msg : Bytes) (w : W) → Wrote (write_message out msg w) w (framed msg)
  unfolding write_message framed
  write_message-Wrote msg w =
      let prefix = u32_to_be (length msg % 2 ^ 32) in
      elim (IoResult-cases (out.write_all w prefix)) [
        | inr (e, failed) ↦ inl (e, ground arith, inl (w, prefix, failed))
        | inl (w1, one) ↦ elim (IoResult-cases (out.write_all w1 msg)) [
          | inr (e, failed) ↦ inl (e, ground arith, inl (w1, msg, failed))
          | inl (w2, two) ↦ inr (
            w2,
            ground arith,
            write_all-taken w1 w2 msg two
                ∙ ap (λ t. t ++ msg) (write_all-taken w w1 prefix one)
                ∙ append_assoc (taken w) prefix msg,
          )
        ]
      ]

  module _ (ch : Mpsc Bytes) (inbox : ReceiverLaws ch) where
    open inbox use {queued, try_recv-item, try_recv-empty, try_recv-disconnected}

    abbrev pub Drained : Option (IoResult (ch.Rx × W)) → W → List Bytes → Type 0
    Drained r w msgs =
        ((e : IoError) × (r ≡ some (err e)) × Fails e)
        ⊎ ((rx : ch.Rx) × (w' : W) × (r ≡ some (ok (rx, w')))
            × (taken w' ≡ taken w ++ framed_all msgs))

    drain_next :
        (fuel : ℕ) (rx : ch.Rx) (w : W) (r : TryRecv Bytes)
        → (ch.try_recv rx).0 ≡ r
        → ((msg : Bytes) (w' : W)
            → (ch.try_recv rx).0 ≡ item msg
            → Drained (drain out ch fuel (ch.try_recv rx).1 w') w' (queued (ch.try_recv rx).1))
        → Drained (drain out ch (suc fuel) rx w) w (queued rx)
    unfolding drain
    drain_next fuel rx w empty got ih =
        inr
          ((ch.try_recv rx).1, w, ground arith, rw ((try_recv-empty rx got).0) (sym (append-nil _)))
    drain_next fuel rx w disconnected got ih = inr (
      (ch.try_recv rx).1,
      w,
      ground arith,
      rw ((try_recv-disconnected rx got).0) (sym (append-nil _)),
    )
    drain_next fuel rx w (item msg) got ih = elim (write_message-Wrote msg w) [
      | inl (e, failed, why) ↦ inl (e, ground arith, why)
      | inr (w1, wrote, took) ↦ elim (ih msg w1 got) [
        | inl (e, failed, why) ↦ inl (e, ground arith, why)
        | inr (rx', w2, ran, took') ↦ inr (
          rx',
          w2,
          ground arith,
          took'
              ∙ ap (λ t. t ++ framed_all (queued (ch.try_recv rx).1)) took
              ∙ append_assoc (taken w) (framed msg) _
              ∙ ap (λ ms. taken w ++ framed_all ms) (sym (try_recv-item rx msg got)),
        )
      ]
    ]

    pub drain-Drained :
        (fuel : ℕ) (rx : ch.Rx) (w : W)
        → length (queued rx) < fuel
        → Drained (drain out ch fuel rx w) w (queued rx)
    drain-Drained zero rx w enough = absurd (omega arith)
    drain-Drained (suc fuel) rx w enough =
        drain_next fuel rx w (ch.try_recv rx).0 refl (λ msg w' got.
          drain-Drained fuel (ch.try_recv rx).1 w'
            (omega (arith, ap length (try_recv-item rx msg got))))

module _ {W : Type 0} (out : BufWriter W) (laws : BufWriterLaws out) (frames responses : Mpsc Bytes)
    (inbox : ReceiverLaws frames) (replies : ReceiverLaws responses) where
  open laws use {taken, passed, flush-passed}

  -- A call on the socket has failed, or these messages have reached the socket after what the writer
  -- had taken before, and the loop goes on.
  abbrev pub Batched :
      Option (IoResult (Bool × Outbound out frames responses)) → W → List Bytes → Type 0
  Batched r w msgs =
      ((e : IoError) × (r ≡ some (err e)) × Fails out laws e)
      ⊎ ((after : Outbound out frames responses) × (r ≡ some (ok (true, after)))
          × (passed after.writer ≡ taken w ++ framed_all msgs))

  abbrev Written : Option (IoResult (Outbound out frames responses)) → W → Bytes → Type 0
  Written r w bs =
      ((e : IoError) × (r ≡ some (err e)) × Fails out laws e)
      ⊎ ((after : Outbound out frames responses) × (r ≡ some (ok after))
          × (passed after.writer ≡ taken w ++ bs))

  drain_all-Written :
      (fuel : ℕ) (s : Outbound out frames responses)
      → length (inbox.queued s.tap_frame_rx) < fuel
      → length (replies.queued s.response_rx) < fuel
      → Written
          (drain_all out frames responses fuel s)
          s.writer
          (framed_all (inbox.queued s.tap_frame_rx) ++ framed_all (replies.queued s.response_rx))
  unfolding drain_all
  drain_all-Written fuel s few few' =
      elim (drain-Drained out laws frames inbox fuel s.tap_frame_rx s.writer few) [
        | inl (e, failed, why) ↦ inl (e, ground arith, why)
        | inr (rx, w, ran, took) ↦
            elim (drain-Drained out laws responses replies fuel s.response_rx w few') [
              | inl (e, failed, why) ↦ inl (e, ground arith, why)
              | inr (rx', w', ran', took') ↦ elim (IoResult-cases (out.flush w')) [
                | inr (e, failed) ↦ inl (e, ground arith, inr (w', failed))
                | inl (w'', flushed) ↦ inr (
                  record { tap_frame_rx = rx; response_rx = rx'; writer = w'' },
                  ground arith,
                  flush-passed w' w'' flushed
                      ∙ took'
                      ∙ ap (λ t. t ++ framed_all (replies.queued s.response_rx)) took
                      ∙ append_assoc (taken s.writer) _ _,
                )
              ]
            ]
      ]

  write_batch-Written :
      (fuel : ℕ) (msg : Bytes) (s : Outbound out frames responses)
      → length (inbox.queued s.tap_frame_rx) < fuel
      → length (replies.queued s.response_rx) < fuel
      → Written
          (write_batch out frames responses fuel msg s)
          s.writer
          (framed_all (msg ∷ (inbox.queued s.tap_frame_rx ++ replies.queued s.response_rx)))
  unfolding write_batch
  write_batch-Written fuel msg s few few' = elim (write_message-Wrote out laws msg s.writer) [
    | inl (e, failed, why) ↦ inl (e, ground arith, why)
    | inr (w, wrote, took) ↦ elim (drain_all-Written fuel (record s { writer = w }) few few') [
      | inl (e, failed, why) ↦ inl (e, ground arith, why)
      | inr (after, ran, took') ↦ inr (
        after,
        ground arith,
        took'
            ∙ ap
                (λ t.
                  t
                  ++ (framed_all (inbox.queued s.tap_frame_rx)
                      ++ framed_all (replies.queued s.response_rx)))
                took
            ∙ append_assoc (taken s.writer) (framed msg) _
            ∙ ap (λ t. taken s.writer ++ (framed msg ++ t))
                (sym
                  (framed_all-append (inbox.queued s.tap_frame_rx) (replies.queued s.response_rx))),
      )
    ]
  ]

  -- One pass of the loop, woken by a frame or by a response, ends, with fuel for what the channels
  -- hold. Either it gives an error that a write or a flush of the socket's writer gives; or what the
  -- writer had taken before, then that message, then every frame that was queued, then every response
  -- that was queued have reached the socket in this order, each message behind its length and nothing
  -- left in the buffer of the writer, and the loop goes on.
  pub outbound_pass-Batched :
      (fuel : ℕ) (msg : Bytes) (s : Outbound out frames responses)
      → length (inbox.queued s.tap_frame_rx) < fuel
      → length (replies.queued s.response_rx) < fuel
      → Batched
          (outbound_pass out frames responses fuel (tap_frame (some msg)) s)
          s.writer
          (msg ∷ (inbox.queued s.tap_frame_rx ++ replies.queued s.response_rx))
        × Batched
            (outbound_pass out frames responses fuel (response msg) s)
            s.writer
            (msg ∷ (inbox.queued s.tap_frame_rx ++ replies.queued s.response_rx))
  unfolding outbound_pass
  outbound_pass-Batched fuel msg s few few' = elim (write_batch-Written fuel msg s few few') [
    | inl (e, failed, why) ↦ (inl (e, ground arith, why), inl (e, ground arith, why))
    | inr (after, ran, took) ↦ (inr (after, ground arith, took), inr (after, ground arith, took))
  ]
