-- ===== src/Tunnel/Writer.antt =====
-- The task of src/lib.rs that writes to the proxy (`setup_stack_from_fd`): frames of the device and
-- control messages, batched until the two channels are empty.
pub mod Batch
pub mod Drains
pub mod Pass
use tap_tunnel.Prelude.{
  ℕ, zero, suc, ◌%◌, ◌^◌, Bool, true, false, Option, none, some, List, [], ◌∷◌, length,
  if◌then◌else◌,
}
use tap_tunnel.Bytes.{Bytes, u32_to_be}
use tap_tunnel.Channel.{Mpsc, item, empty, disconnected}
use tap_tunnel.Stats.{TunnelStats, fetch_add_one}
use tap_tunnel.Protocol.{encode_frame}

-- tokio's `BufWriter` on the socket: whether the call succeeded, and the writer after it.
pub record Sink (W : Type 0) : Type 0 where
  pub write_all : W → Bytes → Bool × W
  pub flush : W → Bool × W

-- `write_all(&len)` and then `write_all(&msg)`, if the first succeeds.
unfoldable pub write_framed : {W : Type 0} → Sink W → W → Bytes → Bool × W
write_framed sink w msg =
    let (len_ok, w') = sink.write_all w (u32_to_be (length msg % 2 ^ 32)) in
    if len_ok then sink.write_all w' msg else (false, w')

-- What `tokio::select!` returned for; `none` is a channel whose senders are gone.
pub data Wake : Type 0 where
  frame_ready : Option Bytes → Wake
  control_ready : Option Bytes → Wake

module _ {W : Type 0} (sink : Sink W) (frames controls : Mpsc Bytes) where
  pub record IpcWriter : Type 0 where
    pub writer : W
    pub frame_rx : frames.Rx
    pub control_rx : controls.Rx
    pub stats : TunnelStats
    pub ipc_dead : Bool

  -- A frame, written and counted: whether the write succeeded.
  unfoldable pub write_frame : Bytes → IpcWriter → Bool × IpcWriter
  unfolding write_framed
  write_frame f s =
      let (good, w) = write_framed sink s.writer (encode_frame f) in
      (
        good,
        elim good [
          | true ↦ record s {
            writer = w;
            stats = record s.stats { ipc_tx_frames = fetch_add_one s.stats.ipc_tx_frames };
          }
          | false ↦ record s {
            writer = w;
            stats = record s.stats { ipc_tx_errors = fetch_add_one s.stats.ipc_tx_errors };
            ipc_dead = true;
          }
        ],
      )

  unfoldable pub write_control : Bytes → IpcWriter → Bool × IpcWriter
  unfolding write_framed
  write_control msg s =
      let (good, w) = write_framed sink s.writer msg in
      (
        good,
        elim good [
          | true ↦ record s { writer = w }
          | false ↦ record s { writer = w; ipc_dead = true }
        ],
      )

  -- The first message: whether the loop goes on.
  unfoldable pub write_first : Wake → IpcWriter → Bool × IpcWriter
  unfolding write_frame write_control
  write_first (frame_ready (some f)) s = write_frame f s
  write_first (control_ready (some msg)) s = write_control msg s
  write_first (frame_ready none) s = (false, s)
  write_first (control_ready none) s = (false, s)

  -- `while let Ok(frame) = frame_to_proxy_rx.try_recv()`; a failed write ends this loop only.
  unfoldable pub drain_frames : ℕ → IpcWriter → Option IpcWriter
  drain_frames zero s = none
  drain_frames (suc fuel) s =
      let (got, rx) = frames.try_recv s.frame_rx in
      elim got [
        | item f ↦
            let (good, s') = write_frame f (record s { frame_rx = rx }) in
            elim good [ true ↦ drain_frames fuel s' | false ↦ some s' ]
        | empty ↦ some (record s { frame_rx = rx })
        | disconnected ↦ some (record s { frame_rx = rx })
      ]

  unfoldable pub drain_controls : ℕ → IpcWriter → Option IpcWriter
  drain_controls zero s = none
  drain_controls (suc fuel) s =
      let (got, rx) = controls.try_recv s.control_rx in
      elim got [
        | item msg ↦
            let (good, s') = write_control msg (record s { control_rx = rx }) in
            elim good [ true ↦ drain_controls fuel s' | false ↦ some s' ]
        | empty ↦ some (record s { control_rx = rx })
        | disconnected ↦ some (record s { control_rx = rx })
      ]

  -- `writer.flush()`, and whether the loop goes on.
  unfoldable pub flush_batch : IpcWriter → Bool × IpcWriter
  flush_batch s =
      let (good, w) = sink.flush s.writer in
      (
        good,
        elim good [
          | true ↦ record s { writer = w }
          | false ↦ record s { writer = w; ipc_dead = true }
        ],
      )

  -- One pass of the loop.
  unfoldable pub writer_pass : ℕ → Wake → IpcWriter → Option (Bool × IpcWriter)
  unfolding write_first drain_frames drain_controls flush_batch
  writer_pass fuel wake s =
      let (go_on, s1) = write_first wake s in
      elim go_on [
        | false ↦ some (false, s1)
        | true ↦ elim (drain_frames fuel s1) [
          | none ↦ none
          | some s2 ↦ elim (drain_controls fuel s2) [
            | none ↦ none
            | some s3 ↦ some (flush_batch s3)
          ]
        ]
      ]
