-- ===== src/Proxy/Relay.antt =====
-- The relay of proxy/src/main.rs (`run_frame_relay`): the task that reads the socket and writes the
-- TAP device, the task that reads the device, and the task that writes the socket. The
-- device and the socket are parameters.
pub mod Messages
pub mod Delivery
pub mod Calls
pub mod Outbound
mod Tests
use tap_tunnel.Prelude.{
  ℕ, zero, suc, ◌+◌, ◌%◌, ◌^◌, Bool, true, false, Option, none, some, List, [], ◌∷◌, String, length,
  ◌==◌, ltb, if◌then◌else◌,
}
use tap_tunnel.Io.{IoResult, IoError, ok, err, ◌>>=◌}
use tap_tunnel.Bytes.{Bytes, from_be}
use tap_tunnel.Channel.{Mpsc, TrySend, sent, full, closed, Outbox}
use tap_tunnel.Protocol.{
  Message, control, frame, ProxyCommand, ProxyResponse, Json, encode_control, decode_control,
  encode_frame, decode_message,
}
use tap_tunnel.Protocol.Framing.{Read, Write}
use tap_tunnel.Protocol.Address.{Profile, debug, release}
use tap_tunnel.Proxy.{Strings, Routes, handle_proxy_command}

-- How a task of the relay goes on, or ends: `Ok(())`, an error, or a panic of `expect`.
pub data Task (S : Type 0) : Type 0 where
  goes_on : S → Task S
  returned : S → Task S
  failed_with : IoError → S → Task S
  panicked : S → Task S

module _ (std : Strings) {K T C : Type 0} (kernel : Routes K) (tap : Write T)
    (responses : Outbox Bytes C) (commands : Json ProxyCommand) (answers : Json ProxyResponse)
    (iface_name : String) (max_frame_size : ℕ) where
  pub record Relay : Type 0 where
    pub tap_writer : T
    pub routes : K
    pub response_tx : C

  -- The command is carried out, and its response is sent to the task that writes the socket, if
  -- that task is there.
  unfoldable pub respond : ProxyCommand → Relay → Task Relay
  respond cmd s =
      let (response, k) = handle_proxy_command std kernel cmd iface_name s.routes in
      elim (encode_control answers response) [
        | err e ↦ panicked (record s { routes = k })
        | ok msg ↦
            goes_on (record s { routes = k; response_tx = (responses.send s.response_tx msg).1 })
      ]

  unfoldable pub command_received : IoResult ProxyCommand → Relay → Task Relay
  unfolding respond
  command_received (ok cmd) s = respond cmd s
  command_received (err e) s = goes_on s

  -- `match decode_message(…)`; a failed write to the device loses the device.
  unfoldable pub relay_message : IoResult Message → Relay → Task Relay
  unfolding command_received
  relay_message (ok (frame f)) s = elim (tap.write_all s.tap_writer f) [
    | err e ↦ failed_with e s
    | ok t ↦ goes_on (record s { tap_writer = t })
  ]
  relay_message (ok (control payload)) s = command_received (decode_control commands payload) s
  relay_message (err e) s = goes_on s

  -- `msg_len == 0 || msg_len > msg_buf.len()`
  unfoldable pub is_invalid_length : ℕ → Bool
  is_invalid_length msg_len = if msg_len == 0 then true else ltb (max_frame_size + 16) msg_len

  -- The loop; `none` is fuel that ran out.
  unfoldable pub relay_loop : {R : Type 0} ⦃r : Read R⦄ → ℕ → R → Relay → Option (Task Relay)
  unfolding relay_message is_invalid_length
  relay_loop zero reader s = none
  relay_loop ⦃r⦄ (suc fuel) reader s = elim (r.read_exact reader 4) [
    | err e ↦ some (returned s)
    | ok (len_buf, reader') ↦ elim (is_invalid_length (from_be len_buf)) [
      | true ↦ relay_loop fuel reader' s
      | false ↦ elim (r.read_exact reader' (from_be len_buf)) [
        | err e ↦ some (returned s)
        | ok (body, reader'') ↦ elim (relay_message (decode_message body) s) [
          | goes_on s' ↦ relay_loop fuel reader'' s'
          | returned s' ↦ some (returned s')
          | failed_with e s' ↦ some (failed_with e s')
          | panicked s' ↦ some (panicked s')
        ]
      ]
    ]
  ]

-- `a + b` at `u64`: a debug build panics on overflow.
unfoldable pub add_u64 : Profile → ℕ → ℕ → Option ℕ
add_u64 debug a b = if ltb (a + b) (2 ^ 64) then some (a + b) else none
add_u64 release a b = some ((a + b) % 2 ^ 64)

-- The task that reads the device: the sender of its channel, and how many frames it dropped.
pub record TapReader (frames : Mpsc Bytes) : Type 0 where
  pub tap_frame_tx : frames.Tx
  pub dropped : ℕ

module _ (frames : Mpsc Bytes) where
  -- After `tap_frame_tx.try_send(msg)`.
  unfoldable pub frame_queued :
      Profile → TrySend × frames.Tx → TapReader frames → Task (TapReader frames)
  unfolding add_u64
  frame_queued p (sent, tx) s = goes_on (record s { tap_frame_tx = tx })
  frame_queued p (full, tx) s = elim (add_u64 p s.dropped 1) [
    | none ↦ panicked (record s { tap_frame_tx = tx })
    | some n ↦ goes_on (record s { tap_frame_tx = tx; dropped = n })
  ]
  frame_queued p (closed, tx) s = returned (record s { tap_frame_tx = tx })

  -- One pass, with what `tap_reader.read(&mut buf)` put at the front of the buffer.
  unfoldable pub tap_read : Profile → IoResult Bytes → TapReader frames → Task (TapReader frames)
  unfolding frame_queued
  tap_read p (err e) s = failed_with e s
  tap_read p (ok []) s = returned s
  tap_read p (ok (b ∷ bs)) s =
      frame_queued p (frames.try_send s.tap_frame_tx (encode_frame (b ∷ bs))) s
