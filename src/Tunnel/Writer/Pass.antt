-- ===== src/Tunnel/Writer/Pass.antt =====
-- One pass of the writer task of src/lib.rs.
use mathlib.Core.Path.{subst}
use tap_tunnel.Prelude.{
  ℕ, ◌+◌, ◌<◌, ◌≡◌, ap, ◌∙◌, Bool, true, false, some, List, [], ◌∷◌, ◌++◌, map, length, arith,
  Bool-cases, inl, inr, ◌⊎◌,
}
use tap_tunnel.Bytes.{Bytes}
use tap_tunnel.Channel.{Mpsc, ReceiverLaws}
use tap_tunnel.Protocol.{encode_frame}
use tap_tunnel.Tunnel.Writer.{
  Sink, Wake, frame_ready, control_ready, IpcWriter, write_frame, write_control, write_first,
  flush_batch, writer_pass,
}
use tap_tunnel.Tunnel.Writer.Batch.{
  SinkLaws, Fails, write_framed-Fails, SendsOr, PassesOr, SendsOr-pass, IsTxCounted,
  write_frame-Sends, write_control-Sends, Keeps, write_frame-Keeps, write_control-Keeps,
}
use tap_tunnel.Tunnel.Writer.Drains.{drain_frames-Drains, drain_controls-Flushes}

module _ {W : Type 0} (sink : Sink W) (laws : SinkLaws sink) (frames controls : Mpsc Bytes)
    (inbox : ReceiverLaws frames) (orders : ReceiverLaws controls) where
  open laws use {taken, passed, flush-passed}
  open inbox use {queued}

  abbrev State : Type 0
  State = IpcWriter sink frames controls

  flush_batch-Passes :
      (k : ℕ) (msgs : List Bytes) (before s : State)
      → SendsOr sink laws frames controls k msgs before s
      → PassesOr sink laws frames controls k msgs before (flush_batch sink frames controls s)
  unfolding flush_batch
  flush_batch-Passes k msgs before s (inl (dead, why)) = inl (ground arith, why)
  flush_batch-Passes k msgs before s (inr (took, stats)) =
      elim (Bool-cases (sink.flush s.writer).0) [
        | inl good ↦
            inr (good, ground (arith, flush-passed s.writer good) ∙ took, ground (arith, stats))
        | inr bad ↦ inl (ground arith, inr (s.writer, bad))
      ]

  -- What wakes the loop: a frame, or a control message.
  abbrev pub wake_of : Bytes ⊎ Bytes → Wake
  wake_of (inl f) = frame_ready (some f)
  wake_of (inr msg) = control_ready (some msg)

  abbrev pub bytes_of : Bytes ⊎ Bytes → Bytes
  bytes_of (inl f) = encode_frame f
  bytes_of (inr msg) = msg

  abbrev pub frames_of : Bytes ⊎ Bytes → ℕ
  frames_of (inl f) = 1
  frames_of (inr msg) = 0

  write_first-Sends :
      (first : Bytes ⊎ Bytes) (s : State)
      → IsTxCounted sink laws frames controls s
      → SendsOr sink laws frames controls
          (frames_of first)
          (bytes_of first ∷ [])
          s
          (write_first sink frames controls (wake_of first) s).1
  unfolding write_first
  write_first-Sends (inl f) s small = write_frame-Sends sink laws frames controls f s
  write_first-Sends (inr msg) s small = write_control-Sends sink laws frames controls msg s small

  write_first-Keeps :
      (first : Bytes ⊎ Bytes) (s : State)
      → Keeps sink laws frames controls s (write_first sink frames controls (wake_of first) s).1
  unfolding write_first
  write_first-Keeps (inl f) s = write_frame-Keeps sink laws frames controls f s
  write_first-Keeps (inr msg) s = write_control-Keeps sink laws frames controls msg s

  write_first-frame_rx :
      (first : Bytes ⊎ Bytes) (s : State)
      → (write_first sink frames controls (wake_of first) s).1.frame_rx ≡ s.frame_rx
  unfolding write_first write_frame write_control
  write_first-frame_rx (inl f) s = ground arith
  write_first-frame_rx (inr msg) s = ground arith

  write_first-control_rx :
      (first : Bytes ⊎ Bytes) (s : State)
      → (write_first sink frames controls (wake_of first) s).1.control_rx ≡ s.control_rx
  unfolding write_first write_frame write_control
  write_first-control_rx (inl f) s = ground arith
  write_first-control_rx (inr msg) s = ground arith

  write_first-stops :
      (first : Bytes ⊎ Bytes) (s : State)
      → (write_first sink frames controls (wake_of first) s).0 ≡ false
      → ((write_first sink frames controls (wake_of first) s).1.ipc_dead ≡ true) × Fails sink
  unfolding write_first write_frame write_control
  write_first-stops (inl f) s stops =
      (ground arith, write_framed-Fails sink s.writer (encode_frame f) stops)
  write_first-stops (inr msg) s stops = (ground arith, write_framed-Fails sink s.writer msg stops)

  -- One pass of the loop, woken by a frame or a control message, ends, with fuel for what the
  -- channels hold and a frame counter below 2^64. Either what the writer had taken before, then the message that woke it, then
  -- every frame that was queued, then every control message that was queued have reached the socket
  -- in that order, each message behind its length and nothing left in the buffer of the writer, the
  -- frames were counted, and the loop goes on; or a write or a flush of the socket's writer failed,
  -- and the connection is marked as lost.
  pub writer_pass-PassesOr :
      (fuel : ℕ) (first : Bytes ⊎ Bytes) (s : State)
      → IsTxCounted sink laws frames controls s
      → length (queued s.frame_rx) < fuel
      → length (orders.queued s.control_rx) < fuel
      → (result : Bool × State) × (writer_pass sink frames controls fuel (wake_of first) s
          ≡ some result)
        × PassesOr sink laws frames controls
            (frames_of first + length (queued s.frame_rx))
            (bytes_of first ∷ (map encode_frame (queued s.frame_rx) ++ orders.queued s.control_rx))
            s
            result
  unfolding writer_pass
  writer_pass-PassesOr fuel first s small frames_few controls_few =
      let s1 = (write_first sink frames controls (wake_of first) s).1 in
      let sends1 = write_first-Sends first s small in
      let keeps1 = write_first-Keeps first s in
      let fr = write_first-frame_rx first s in
      let co = write_first-control_rx first s in
      let (s2, ran2, sends2, keeps2, same2) =
        drain_frames-Drains sink laws frames controls inbox orders fuel s1 (keeps1.1 small)
          (omega (arith, ap (λ rx. length (queued rx)) fr)) in
      let (s3, ran3, sends3, keeps3) =
        drain_controls-Flushes sink laws frames controls inbox orders fuel s2
          (keeps2.1 (keeps1.1 small))
          (omega (arith, ap (λ rx. length (orders.queued rx)) (same2 ∙ co))) in
      elim (Bool-cases (write_first sink frames controls (wake_of first) s).0) [
        | inr stops ↦ ((false, s1), ground arith, inl (write_first-stops first s stops))
        | inl goes ↦ (
          flush_batch sink frames controls s3,
          ground (arith, ran2, ran3),
          flush_batch-Passes (frames_of first + length (queued s.frame_rx))
              (bytes_of first
                ∷ (map encode_frame (queued s.frame_rx) ++ orders.queued s.control_rx))
              s s3
              (SendsOr-pass sink laws frames controls (frames_of first) (length (queued s.frame_rx))
                (bytes_of first) (map encode_frame (queued s.frame_rx)) (orders.queued s.control_rx)
                s s1 s2 s3 sends1
                (subst
                  (λ rx.
                    SendsOr sink laws frames controls (length (queued rx))
                      (map encode_frame (queued rx)) s1 s2)
                  fr sends2)
                (subst (λ rx. SendsOr sink laws frames controls 0 (orders.queued rx) s2 s3)
                  (same2 ∙ co) sends3)
                keeps2 keeps3),
        )
      ]
