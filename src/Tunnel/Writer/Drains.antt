-- ===== src/Tunnel/Writer/Drains.antt =====
-- The loops that empty the channels of the writer task of src/lib.rs.
use mathlib.Core.Path.{subst}
use tap_tunnel.Prelude.{
  ℕ, zero, suc, ◌<◌, ◌≡◌, ◌≢◌, refl, ap, ◌∙◌, Option, some, List, [], ◌∷◌, map, length, arith,
  Bool-cases, inl, inr,
}
use tap_tunnel.Bytes.{Bytes}
use tap_tunnel.Channel.{Mpsc, TryRecv, item, empty, disconnected, ReceiverLaws}
use tap_tunnel.Protocol.{encode_frame}
use tap_tunnel.Tunnel.Writer.{
  Sink, IpcWriter, write_frame, write_control, drain_frames, drain_controls,
}
use tap_tunnel.Tunnel.Writer.Batch.{
  SinkLaws, SendsOr, SendsOr-trans, IsTxCounted, write_frame-Sends, write_control-Sends, none_sent,
  write_framed-Fails, Keeps, write_frame-Keeps, write_control-Keeps,
}

module _ {W : Type 0} (sink : Sink W) (laws : SinkLaws sink) (frames controls : Mpsc Bytes)
    (inbox : ReceiverLaws frames) (orders : ReceiverLaws controls) where
  abbrev State : Type 0
  State = IpcWriter sink frames controls

  open inbox use {queued, try_recv-item, try_recv-empty, try_recv-disconnected}

  -- What draining a channel did: `msgs`, that were in it, went out, or the connection is lost.
  abbrev pub Drains : Option State → (k : ℕ) (msgs : List Bytes) → State → Type 0
  Drains result k msgs s =
      (after : State) × (result ≡ some after)
      × SendsOr sink laws frames controls k msgs s after
      × Keeps sink laws frames controls s after
      × (after.control_rx ≡ s.control_rx)

  -- The frame was written, or was not.
  drain_frame :
      (fuel : ℕ) (s : State) (f : Bytes) (k : ℕ) (msgs : List Bytes)
      → (frames.try_recv s.frame_rx).0 ≡ item f
      → Drains
          (drain_frames sink frames controls fuel
            (write_frame sink frames controls f
              (record s { frame_rx = (frames.try_recv s.frame_rx).1 })).1)
          k
          msgs
          (write_frame sink frames controls f
            (record s { frame_rx = (frames.try_recv s.frame_rx).1 })).1
      → Drains (drain_frames sink frames controls (suc fuel) s) (suc k) (encode_frame f ∷ msgs) s
  unfolding drain_frames
  drain_frame fuel s f k msgs got (after, ran, sends, keeps, same) =
      let here = record s { frame_rx = (frames.try_recv s.frame_rx).1 } in
      let next = write_frame sink frames controls f here in
      let first = write_frame-Sends sink laws frames controls f here in
      let first_keeps = write_frame-Keeps sink laws frames controls f here in
      elim (Bool-cases next.0) [
        | inl good ↦ (
          after,
          ground (arith, ran),
          subst (λ n. SendsOr sink laws frames controls n (encode_frame f ∷ msgs) s after)
              (omega arith)
              (SendsOr-trans sink laws frames controls 1 k (encode_frame f ∷ []) msgs here next.1
                after keeps.0 first sends),
          (λ dead. keeps.0 (first_keeps.0 dead), λ small. keeps.1 (first_keeps.1 small)),
          same ∙ (unfold write_frame in ground arith),
        )
        | inr bad ↦ (
          next.1,
          ground arith,
          unfold write_frame in
              inl (ground arith, write_framed-Fails sink s.writer (encode_frame f) bad),
          first_keeps,
          unfold write_frame in ground arith,
        )
      ]

  write_frame-frame_rx :
      (f : Bytes) (s : State) → (write_frame sink frames controls f s).1.frame_rx ≡ s.frame_rx
  unfolding write_frame
  write_frame-frame_rx f s = ground arith

  write_control-control_rx :
      (msg : Bytes) (s : State)
      → (write_control sink frames controls msg s).1.control_rx ≡ s.control_rx
  unfolding write_control
  write_control-control_rx msg s = ground arith

  -- The channel had nothing.
  drain_frames-none :
      (fuel : ℕ) (s : State) (r : TryRecv Bytes)
      → ((f : Bytes) → r ≢ item f)
      → (frames.try_recv s.frame_rx).0 ≡ r
      → IsTxCounted sink laws frames controls s
      → Drains
          (drain_frames sink frames controls (suc fuel) s)
          (length (queued s.frame_rx))
          (map encode_frame (queued s.frame_rx))
          s
  unfolding drain_frames
  drain_frames-none fuel s (item f) other got small = absurd (other f refl)
  drain_frames-none fuel s empty other got small = (
    record s { frame_rx = (frames.try_recv s.frame_rx).1 },
    ground (arith, got),
    rw ((try_recv-empty s.frame_rx got).0) (none_sent sink laws frames controls s small),
    (λ dead. dead, λ small. small),
    refl,
  )
  drain_frames-none fuel s disconnected other got small = (
    record s { frame_rx = (frames.try_recv s.frame_rx).1 },
    ground (arith, got),
    rw ((try_recv-disconnected s.frame_rx got).0) (none_sent sink laws frames controls s small),
    (λ dead. dead, λ small. small),
    refl,
  )

  -- All frames that are queued go out, in order, or the connection is lost.
  pub drain_frames-Drains :
      (fuel : ℕ) (s : State)
      → IsTxCounted sink laws frames controls s
      → length (queued s.frame_rx) < fuel
      → Drains
          (drain_frames sink frames controls fuel s)
          (length (queued s.frame_rx))
          (map encode_frame (queued s.frame_rx))
          s
  drain_frames-Drains zero s small enough = absurd (omega arith)
  drain_frames-Drains (suc fuel) s small enough =
      from_channel (frames.try_recv s.frame_rx).0 refl (λ f got.
        let here = record s { frame_rx = (frames.try_recv s.frame_rx).1 } in
        let next = (write_frame sink frames controls f here).1 in
        let rest = write_frame-frame_rx f here in
        let queue = try_recv-item s.frame_rx f got in
        let left = queued (frames.try_recv s.frame_rx).1 in
        rw queue (
          drain_frame fuel s f (length left) (map encode_frame left) got (
            subst
              (λ q.
                Drains (drain_frames sink frames controls fuel next) (length q) (map encode_frame q)
                  next)
              (ap queued rest)
              (drain_frames-Drains fuel next
                ((write_frame-Keeps sink laws frames controls f here).1 small)
                (omega (arith, ap length queue, ap (λ rx. length (queued rx)) rest))))))
    where
      from_channel :
          (r : TryRecv Bytes)
          → (frames.try_recv s.frame_rx).0 ≡ r
          → ((f : Bytes)
              → (frames.try_recv s.frame_rx).0 ≡ item f
              → Drains
                  (drain_frames sink frames controls (suc fuel) s)
                  (length (queued s.frame_rx))
                  (map encode_frame (queued s.frame_rx))
                  s)
          → Drains
              (drain_frames sink frames controls (suc fuel) s)
              (length (queued s.frame_rx))
              (map encode_frame (queued s.frame_rx))
              s
      from_channel (item f) got ih = ih f got
      from_channel empty got ih = drain_frames-none fuel s empty (λ f h. cc) got small
      from_channel disconnected got ih = drain_frames-none fuel s disconnected (λ f h. cc) got small

  -- What draining the control messages did.
  abbrev pub Flushes : Option State → (msgs : List Bytes) → State → Type 0
  Flushes result msgs s =
      (after : State) × (result ≡ some after)
      × SendsOr sink laws frames controls 0 msgs s after
      × Keeps sink laws frames controls s after

  drain_control :
      (fuel : ℕ) (s : State) (msg : Bytes) (msgs : List Bytes)
      → IsTxCounted sink laws frames controls s
      → (controls.try_recv s.control_rx).0 ≡ item msg
      → Flushes
          (drain_controls sink frames controls fuel
            (write_control sink frames controls msg
              (record s { control_rx = (controls.try_recv s.control_rx).1 })).1)
          msgs
          (write_control sink frames controls msg
            (record s { control_rx = (controls.try_recv s.control_rx).1 })).1
      → Flushes (drain_controls sink frames controls (suc fuel) s) (msg ∷ msgs) s
  unfolding drain_controls
  drain_control fuel s msg msgs small got (after, ran, sends, keeps) =
      let here = record s { control_rx = (controls.try_recv s.control_rx).1 } in
      let next = write_control sink frames controls msg here in
      let first = write_control-Sends sink laws frames controls msg here small in
      let first_keeps = write_control-Keeps sink laws frames controls msg here in
      elim (Bool-cases next.0) [
        | inl good ↦ (
          after,
          ground (arith, ran),
          SendsOr-trans sink laws frames controls 0 0 (msg ∷ []) msgs here next.1 after keeps.0
              first sends,
          (λ dead. keeps.0 (first_keeps.0 dead), λ few. keeps.1 (first_keeps.1 few)),
        )
        | inr bad ↦ (
          next.1,
          ground arith,
          (unfold write_control in inl (ground arith, write_framed-Fails sink s.writer msg bad)),
          first_keeps,
        )
      ]

  drain_controls-none :
      (fuel : ℕ) (s : State) (r : TryRecv Bytes)
      → ((msg : Bytes) → r ≢ item msg)
      → (controls.try_recv s.control_rx).0 ≡ r
      → IsTxCounted sink laws frames controls s
      → Flushes (drain_controls sink frames controls (suc fuel) s) (orders.queued s.control_rx) s
  unfolding drain_controls
  drain_controls-none fuel s (item msg) other got small = absurd (other msg refl)
  drain_controls-none fuel s empty other got small = (
    record s { control_rx = (controls.try_recv s.control_rx).1 },
    ground (arith, got),
    rw ((orders.try_recv-empty s.control_rx got).0) (none_sent sink laws frames controls s small),
    (λ dead. dead, λ few. few),
  )
  drain_controls-none fuel s disconnected other got small = (
    record s { control_rx = (controls.try_recv s.control_rx).1 },
    ground (arith, got),
    rw ((orders.try_recv-disconnected s.control_rx got).0)
        (none_sent sink laws frames controls s small),
    (λ dead. dead, λ few. few),
  )

  pub drain_controls-Flushes :
      (fuel : ℕ) (s : State)
      → IsTxCounted sink laws frames controls s
      → length (orders.queued s.control_rx) < fuel
      → Flushes (drain_controls sink frames controls fuel s) (orders.queued s.control_rx) s
  drain_controls-Flushes zero s small enough = absurd (omega arith)
  drain_controls-Flushes (suc fuel) s small enough =
      from_channel (controls.try_recv s.control_rx).0 refl (λ msg got.
        let here = record s { control_rx = (controls.try_recv s.control_rx).1 } in
        let next = (write_control sink frames controls msg here).1 in
        let rest = write_control-control_rx msg here in
        let queue = orders.try_recv-item s.control_rx msg got in
        rw queue (
          drain_control fuel s msg (orders.queued (controls.try_recv s.control_rx).1) small got (
            subst (λ q. Flushes (drain_controls sink frames controls fuel next) q next)
              (ap orders.queued rest)
              (drain_controls-Flushes fuel next
                ((write_control-Keeps sink laws frames controls msg here).1 small)
                (omega (arith, ap length queue, ap (λ rx. length (orders.queued rx)) rest))))))
    where
      from_channel :
          (r : TryRecv Bytes)
          → (controls.try_recv s.control_rx).0 ≡ r
          → ((msg : Bytes)
              → (controls.try_recv s.control_rx).0 ≡ item msg
              → Flushes
                  (drain_controls sink frames controls (suc fuel) s)
                  (orders.queued s.control_rx)
                  s)
          → Flushes
              (drain_controls sink frames controls (suc fuel) s)
              (orders.queued s.control_rx)
              s
      from_channel (item msg) got ih = ih msg got
      from_channel empty got ih = drain_controls-none fuel s empty (λ f h. cc) got small
      from_channel disconnected got ih =
          drain_controls-none fuel s disconnected (λ f h. cc) got small
