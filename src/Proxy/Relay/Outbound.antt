-- ===== src/Proxy/Relay/Outbound.antt =====
-- The task of proxy/src/main.rs that writes the socket (`run_frame_relay`): encoded frames of the
-- device and responses, batched until the two channels are empty. A failed write ends the task.
pub mod Batch
use tap_tunnel.Prelude.{ℕ, zero, suc, ◌%◌, ◌^◌, Bool, true, false, Option, none, some, length}
use tap_tunnel.Io.{IoResult, ok, err, ◌>>=◌}
use tap_tunnel.Bytes.{Bytes, u32_to_be}
use tap_tunnel.Channel.{Mpsc, item, empty, disconnected}

-- tokio's `BufWriter` on the socket; an error ends its use.
pub record BufWriter (W : Type 0) : Type 0 where
  pub write_all : W → Bytes → IoResult W
  pub flush : W → IoResult W

-- What `tokio::select!` returned for: `none` is the channel of the TAP reader without its sender; the
-- other branch is not taken when its senders are gone.
pub data Ready : Type 0 where
  tap_frame : Option Bytes → Ready
  response : Bytes → Ready

module _ {W : Type 0} (out : BufWriter W) where
  -- `write_all(&len)`, and `write_all(&msg)`.
  unfoldable pub write_message : Bytes → W → IoResult W
  write_message msg w = do
    w' ← out.write_all w (u32_to_be (length msg % 2 ^ 32))
    out.write_all w' msg

  -- `while let Ok(msg) = rx.try_recv()`; `none` is fuel that ran out.
  unfoldable pub drain : (ch : Mpsc Bytes) → ℕ → ch.Rx → W → Option (IoResult (ch.Rx × W))
  unfolding write_message
  drain ch zero rx w = none
  drain ch (suc fuel) rx w =
      let (got, rx') = ch.try_recv rx in
      elim got [
        | item msg ↦ elim (write_message msg w) [
          | err e ↦ some (err e)
          | ok w' ↦ drain ch fuel rx' w'
        ]
        | empty ↦ some (ok (rx', w))
        | disconnected ↦ some (ok (rx', w))
      ]

module _ {W : Type 0} (out : BufWriter W) (frames responses : Mpsc Bytes) where
  pub record Outbound : Type 0 where
    pub tap_frame_rx : frames.Rx
    pub response_rx : responses.Rx
    pub writer : W

  -- The two channels, and the flush.
  unfoldable pub drain_all : ℕ → Outbound → Option (IoResult Outbound)
  unfolding drain
  drain_all fuel s = elim (drain out frames fuel s.tap_frame_rx s.writer) [
    | none ↦ none
    | some (err e) ↦ some (err e)
    | some (ok (tap_frame_rx, w)) ↦ elim (drain out responses fuel s.response_rx w) [
      | none ↦ none
      | some (err e) ↦ some (err e)
      | some (ok (response_rx, w')) ↦ some (
          out.flush w' >>= λ w''.
          ok (record { tap_frame_rx = tap_frame_rx; response_rx = response_rx; writer = w'' }))
    ]
  ]

  -- A batch that starts with `msg`.
  unfoldable pub write_batch : ℕ → Bytes → Outbound → Option (IoResult Outbound)
  unfolding write_message drain_all
  write_batch fuel msg s = elim (write_message out msg s.writer) [
    | err e ↦ some (err e)
    | ok w ↦ drain_all fuel (record s { writer = w })
  ]

  -- One pass of the loop: whether it goes on, and the state.
  unfoldable pub outbound_pass : ℕ → Ready → Outbound → Option (IoResult (Bool × Outbound))
  unfolding write_batch
  outbound_pass fuel (tap_frame none) s =
      some (out.flush s.writer >>= λ w. ok (false, record s { writer = w }))
  outbound_pass fuel (tap_frame (some msg)) s = elim (write_batch fuel msg s) [
    | none ↦ none
    | some r ↦ some (r >>= λ s'. ok (true, s'))
  ]
  outbound_pass fuel (response msg) s = elim (write_batch fuel msg s) [
    | none ↦ none
    | some r ↦ some (r >>= λ s'. ok (true, s'))
  ]
