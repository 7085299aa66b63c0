-- ===== src/Proxy/Relay/Messages.antt =====
-- The task of proxy/src/main.rs that reads the socket, seen as a handler of messages.
use tap_tunnel.Prelude.{
  ℕ, zero, suc, ◌+◌, ◌≤◌, ◌<◌, ◌≡◌, refl, ap, ◌∙◌, false, Option, some, List, [], ◌∷◌, ◌++◌,
  append_assoc, map, length, All, arith, ◌%◌, ◌^◌, String,
}
use tap_tunnel.Io.{IoResult, ok}
use tap_tunnel.Bytes.{Bytes, from_be, u32_to_be, from_be-u32_to_be}
use tap_tunnel.Channel.{Outbox}
use tap_tunnel.Protocol.{Message, control, frame, Json, ProxyCommand, ProxyResponse, decode_message}
use tap_tunnel.Protocol.Codec.{encoded, decode_message-eq-ok_iff}
use tap_tunnel.Protocol.Framing.{Write, read_bytes}
use tap_tunnel.Protocol.Streams.{framed, framed_all, read_prefix, read_body}
use tap_tunnel.Proxy.{Strings, Routes}
use tap_tunnel.Proxy.Relay.{
  Task, goes_on, returned, failed_with, panicked, Relay, relay_message, relay_loop,
  is_invalid_length,
}

module _ (std : Strings) {K T C : Type 0} (kernel : Routes K) (tap : Write T)
    (responses : Outbox Bytes C) (commands : Json ProxyCommand) (answers : Json ProxyResponse)
    (iface_name : String) (max_frame_size : ℕ) where
  abbrev State : Type 0
  State = Relay std kernel tap responses commands answers iface_name max_frame_size

  abbrev run_loop : ℕ → Bytes → State → Option (Task State)
  run_loop = relay_loop std kernel tap responses commands answers iface_name max_frame_size

  abbrev handle : IoResult Message → State → Task State
  handle = relay_message std kernel tap responses commands answers iface_name max_frame_size

  -- What the task does, message by message, until it ends by itself or the stream does.
  unfoldable pub relay_all : List Message → State → Task State
  relay_all [] s = returned s
  relay_all (m ∷ ms) s = elim (handle (ok m) s) [
    | goes_on s' ↦ relay_all ms s'
    | returned s' ↦ returned s'
    | failed_with e s' ↦ failed_with e s'
    | panicked s' ↦ panicked s'
  ]

  -- A message that the task's buffer holds.
  abbrev pub IsHeld : Message → Type 0
  IsHeld m = length (encoded m) ≤ max_frame_size + 16

  prefix-framed :
      (msg rest : Bytes)
      → read_bytes.read_exact (framed msg ++ rest) 4
        ≡ ok (u32_to_be (length msg % 2 ^ 32), msg ++ rest)
  unfolding framed
  prefix-framed msg rest = rw append_assoc (read_prefix (length msg % 2 ^ 32) (msg ++ rest))

  from_be-length :
      (msg : Bytes) → length msg < 2 ^ 32 → from_be (u32_to_be (length msg % 2 ^ 32)) ≡ length msg
  from_be-length msg few = omega (arith, from_be-u32_to_be (length msg % 2 ^ 32))

  encoded-valid :
      (m : Message)
      → IsHeld m
      → is_invalid_length std kernel tap responses commands answers iface_name max_frame_size
          (length (encoded m))
        ≡ false
  unfolding is_invalid_length
  encoded-valid (control p) held = ground arith
  encoded-valid (frame p) held = ground arith

  -- What follows one message.
  unfoldable after : Task State → ℕ → Bytes → Option (Task State)
  after (goes_on s) fuel rest = run_loop fuel rest s
  after (returned s) fuel rest = some (returned s)
  after (failed_with e s) fuel rest = some (failed_with e s)
  after (panicked s) fuel rest = some (panicked s)

  relay_loop-next :
      (fuel : ℕ) (rest msg : Bytes) (s : State)
      → length msg < 2 ^ 32
      → is_invalid_length std kernel tap responses commands answers iface_name max_frame_size
          (length msg)
        ≡ false
      → run_loop (suc fuel) (framed msg ++ rest) s ≡ after (handle (decode_message msg) s) fuel rest
  unfolding relay_loop after
  relay_loop-next fuel rest msg s few valid =
      ground (
        arith,
        prefix-framed msg rest,
        from_be-length msg few,
        read_body (length msg) msg rest refl,
      )

  after-relay_all :
      (fuel : ℕ) (later : Bytes) (ms : List Message) (t : Task State)
      → ((s : State) → run_loop fuel later s ≡ some (relay_all ms s))
      → after t fuel later
        ≡ some (elim t [
          | goes_on s' ↦ relay_all ms s'
          | returned s' ↦ returned s'
          | failed_with e s' ↦ failed_with e s'
          | panicked s' ↦ panicked s'
        ])
  unfolding after
  after-relay_all fuel later ms (goes_on s) ih = ih s
  after-relay_all fuel later ms (returned s) ih = refl
  after-relay_all fuel later ms (failed_with e s) ih = refl
  after-relay_all fuel later ms (panicked s) ih = refl

  -- On the bytes of any sequence of messages that its buffer holds, followed by fewer bytes than a
  -- prefix, the task ends, and does what `relay_all` does with the messages one by one.
  pub relay_loop-relay_all :
      (ms : List Message) (rest : Bytes) (fuel : ℕ) (s : State)
      → max_frame_size + 16 < 2 ^ 32
      → All IsHeld ms
      → length rest < 4
      → length ms < fuel
      → run_loop fuel (framed_all (map encoded ms) ++ rest) s ≡ some (relay_all ms s)
  unfolding relay_loop relay_all
  relay_loop-relay_all ms rest zero s small held cut enough = absurd (omega arith)
  relay_loop-relay_all [] rest (suc fuel) s small held cut enough = ground arith
  relay_loop-relay_all (m ∷ ms) rest (suc fuel) s small (short, others) cut enough =
      let decoded : decode_message (encoded m) ≡ ok m =
        (decode_message-eq-ok_iff (encoded m) m).1 refl in
      let later = framed_all (map encoded ms) ++ rest in
      ap (λ bs. run_loop (suc fuel) bs s) (append_assoc (framed (encoded m)) _ rest)
      ∙ relay_loop-next fuel later (encoded m) s (omega arith) (encoded-valid m short)
      ∙ ap (λ r. after (handle r s) fuel later) decoded
      ∙ after-relay_all fuel later ms (handle (ok m) s)
          (λ s'. relay_loop-relay_all ms rest fuel s' small others cut (omega arith))
