-- ===== src/Proxy/Handshake.antt =====
-- The proxy's side of the handshake of proxy/src/main.rs, over the system calls `read` and `write`.
use tap_tunnel.Prelude.{
  ℕ, zero, suc, ◌-◌, ◌%◌, ◌^◌, Option, none, some, [], ◌∷◌, ◌++◌, drop, length, ◌==◌, if◌then◌else◌,
}
use tap_tunnel.Io.{IoResult, ok, err, io_error, invalid_data, invalid_input, unexpected_eof}
use tap_tunnel.Bytes.{Bytes, from_be, u32_to_be}
use tap_tunnel.Protocol.{
  ClientHello, ProxyConfig, Message, control, frame, Json, encode_control, decode_control,
  decode_message,
}
use tap_tunnel.Tunnel.{TapConfig}

-- The system calls `read` and `write` on a descriptor: what they moved, or an error.
pub record Descriptor (D : Type 0) : Type 0 where
  pub read : D → ℕ → IoResult (Bytes × D)
  pub write : D → Bytes → IoResult (ℕ × D)

module _ {D : Type 0} (os : Descriptor D) where
  -- `read_exact_fd` into `want` bytes; `none` is fuel that ran out.
  unfoldable pub read_exact_fd : ℕ → D → ℕ → Option (IoResult (Bytes × D))
  read_exact_fd zero fd want = none
  read_exact_fd (suc fuel) fd want =
      if want == 0 then some (ok ([], fd)) else elim (os.read fd want) [
        | err e ↦ some (err e)
        | ok ([], fd') ↦ some (err (io_error unexpected_eof "connection closed"))
        | ok (b ∷ bs, fd') ↦ elim (read_exact_fd fuel fd' (want - length (b ∷ bs))) [
          | none ↦ none
          | some (err e) ↦ some (err e)
          | some (ok (rest, fd'')) ↦ some (ok ((b ∷ bs) ++ rest, fd''))
        ]
      ]

  unfoldable pub write_all_fd : ℕ → D → Bytes → Option (IoResult D)
  write_all_fd zero fd buf = none
  write_all_fd (suc fuel) fd buf =
      if length buf == 0 then some (ok fd) else elim (os.write fd buf) [
        | err e ↦ some (err e)
        | ok (n, fd') ↦ write_all_fd fuel fd' (drop n buf)
      ]

  -- `match msg { Message::Control(payload) => decode_control(&payload)?, … }`
  unfoldable pub expect_hello : Json ClientHello → Message → IoResult ClientHello
  expect_hello serde (control payload) = decode_control serde payload
  expect_hello serde (frame f) = err (io_error invalid_data "expected ClientHello, got frame")

  -- The answer to a `ClientHello`: the message with its length before it.
  unfoldable pub config_message : Json ProxyConfig → TapConfig → Bytes → IoResult Bytes
  config_message serde config tap_mac = elim config.peer_addr [
    | none ↦ err (io_error invalid_input "tap_addr must be configured")
    | some (tap_ip, prefix_len) ↦
        encode_control serde
          (record { tap_ip = tap_ip; tap_mac = tap_mac; prefix_len = prefix_len; mtu = config.mtu })
  ]

  -- To go on after a step that may fail or run out of fuel.
  abbrev and_then :
      {A B : Type 0} → Option (IoResult A) → (A → Option (IoResult B)) → Option (IoResult B)
  and_then none k = none
  and_then (some (err e)) k = some (err e)
  and_then (some (ok a)) k = k a

  unfoldable pub perform_handshake :
      ℕ
      → Json ClientHello
      → Json ProxyConfig
      → TapConfig
      → (tap_mac : Bytes) → D
      → Option (IoResult D)
  unfolding read_exact_fd write_all_fd expect_hello config_message
  perform_handshake fuel hello_json config_json config tap_mac fd =
      and_then (read_exact_fd fuel fd 4) (λ (len_buf, fd1).
        and_then (read_exact_fd fuel fd1 (from_be len_buf)) (λ (buf, fd2).
          and_then (some (decode_message buf)) (λ msg.
            and_then (some (expect_hello hello_json msg)) (λ hello.
              and_then (some (config_message config_json config tap_mac)) (λ config_msg.
                and_then (write_all_fd fuel fd2 (u32_to_be (length config_msg % 2 ^ 32)))
                  (λ fd3. write_all_fd fuel fd3 config_msg))))))
