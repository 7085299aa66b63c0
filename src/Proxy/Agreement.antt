-- ===== src/Proxy/Agreement.antt =====
-- The two sides of the handshake, `connect_to_blocking` of src/lib.rs and `perform_handshake` of
-- proxy/src/main.rs: what the client comes to know of the proxy.
use tap_tunnel.Prelude.{
  ℕ, ◌+◌, ◌%◌, ◌^◌, ◌<◌, ◌≡◌, refl, sym, ap, ◌∙◌, Option, some, [], ◌∷◌, ◌++◌, append_assoc, length,
  replicate, take-length_append, arith, inl, inr, ◌⊎◌,
}
use tap_tunnel.Io.{IoResult, ok, err, IoError}
use tap_tunnel.Bytes.{Bytes, from_be, u32_to_be, from_be-u32_to_be, length-u32_to_be}
use tap_tunnel.Net.{IpAddr}
use tap_tunnel.Protocol.{ClientHello, ProxyConfig, Json, encode_control}
use tap_tunnel.Protocol.Codec.{decode-encode_control}
use tap_tunnel.Protocol.Framing.{write_bytes, read_bytes}
use tap_tunnel.Protocol.Streams.{Fits, framed, write_framed_sync-framed, read_framed_sync-framed}
use tap_tunnel.Tunnel.{TapConfig, send_hello, receive_config, expect_config}
use tap_tunnel.Proxy.Handshake.{
  Descriptor, read_exact_fd, expect_hello, config_message, perform_handshake,
}
use tap_tunnel.Proxy.Transfers.{
  DescriptorLaws, ReadFails, WriteFails, write_all_fd-Writes, read_exact_fd-ReadsExactly,
}

same_front : (a b x y : Bytes) → length a ≡ length b → a ++ x ≡ b ++ y → (a ≡ b) × (x ≡ y)
same_front [] [] x y len e = (refl, e)
same_front [] (b ∷ bs) x y len e = absurd (omega (arith, len))
same_front (a ∷ rest) [] x y len e = absurd (omega (arith, len))
same_front (a ∷ rest) (b ∷ bs) x y len e =
    let head : a ≡ b = cc in
    let tail : rest ++ x ≡ bs ++ y = cc in
    let (front, back) = same_front rest bs x y (omega (arith, len)) tail in
    (rw (head, front) refl, back)

module _ (hello_json : Json ClientHello) (config_json : Json ProxyConfig) where
  send_hello-framed :
      (hello_msg : Bytes)
      → encode_control hello_json (record {}) ≡ ok hello_msg
      → send_hello hello_json config_json [] ≡ ok (framed hello_msg)
  unfolding send_hello
  send_hello-framed hello_msg e = rw e (write_framed_sync-framed [] hello_msg)

  receive_config-framed :
      (config : ProxyConfig) (msg rest : Bytes)
      → encode_control config_json config ≡ ok msg
      → Fits msg
      → receive_config hello_json config_json (framed msg ++ rest) ≡ ok (config, rest)
  unfolding receive_config expect_config
  receive_config-framed config msg rest e fits =
      let (payload, decoded, read) = decode-encode_control config_json config msg e in
      rw
        (
          read_framed_sync-framed msg rest (replicate 1024 0) fits,
          take-length_append,
          decoded,
          read,
        )
        refl

-- Writing a message behind its length.
module _ {D : Type 0} (os : Descriptor D) (laws : DescriptorLaws os) where
  open laws use {input, output, stalls}

  -- The call ended with an error that a `read` or a `write` gives, or because the input ended, or
  -- with `rest` to be read and `out` written.
  abbrev pub Leaves : Option (IoResult D) → (rest out : Bytes) → Type 0
  Leaves r rest out =
      ((e : IoError) × (r ≡ some (err e)) × (ReadFails os laws e ⊎ WriteFails os laws e))
      ⊎ ((fd' : D) × (r ≡ some (ok fd')) × (input fd' ≡ rest) × (output fd' ≡ out))

  -- A step that reads `want` bytes, of which the input starts with.
  reads :
      (fuel : ℕ) (fd : D) (bs rest : Bytes)
      → length bs < fuel
      → input fd ≡ bs ++ rest
      → ((e : IoError) × (read_exact_fd os fuel fd (length bs) ≡ some (err e))
          × ReadFails os laws e)
        ⊎ ((fd' : D) × (read_exact_fd os fuel fd (length bs) ≡ some (ok (bs, fd')))
            × (input fd' ≡ rest)
            × (output fd' ≡ output fd)
            × (stalls fd' ≡ stalls fd))
  reads fuel fd bs rest enough there =
      elim (read_exact_fd-ReadsExactly os laws fuel fd (length bs) enough) [
        | inl failed ↦ inl failed
        | inr (got, fd', ran, len, front, kept, same_stalls) ↦
            let (same, left) = same_front got bs (input fd') rest len (sym front ∙ there) in
            inr (fd', ran ∙ ap (λ t. some (ok (t, fd'))) same, left, kept, same_stalls)
      ]

  module _ (hello_json : Json ClientHello) (config_json : Json ProxyConfig) (fuel : ℕ)
      (config : TapConfig) (tap_mac : Bytes) where
    abbrev handshake : D → Option (IoResult D)
    handshake = perform_handshake os fuel hello_json config_json config tap_mac

    perform_handshake-Leaves :
        (hello_msg config_msg rest : Bytes) (fd : D)
        → encode_control hello_json (record {}) ≡ ok hello_msg
        → config_message os config_json config tap_mac ≡ ok config_msg
        → length hello_msg < 2 ^ 32
        → length hello_msg < fuel
        → length config_msg + stalls fd < fuel
        → 4 + stalls fd < fuel
        → input fd ≡ framed hello_msg ++ rest
        → Leaves (handshake fd) rest (output fd ++ framed config_msg)
    unfolding perform_handshake framed expect_hello
    perform_handshake-Leaves hello_msg config_msg rest fd e e' small hello_few config_few more
          there =
        let n = length hello_msg % 2 ^ 32 in
        let m = length config_msg % 2 ^ 32 in
        let (payload, decoded, read) = decode-encode_control hello_json (record {}) hello_msg e in
        let len : from_be (u32_to_be n) ≡ length hello_msg = omega (arith, from_be-u32_to_be n) in
        elim (reads fuel fd (u32_to_be n) (hello_msg ++ rest) (omega (arith, length-u32_to_be n))
          (there ∙ append_assoc (u32_to_be n) hello_msg rest)) [
            | inl (error, ran, why) ↦ inl (error, ground (arith, ran, length-u32_to_be n), inl why)
            | inr (fd1, ran1, in1, out1, st1) ↦ elim (reads fuel fd1 hello_msg rest hello_few in1) [
              | inl (error, ran, why) ↦
                  inl (error, ground (arith, ran1, ran, length-u32_to_be n, len), inl why)
              | inr (fd2, ran2, in2, out2, st2) ↦
                  elim (write_all_fd-Writes os laws fuel fd2 (u32_to_be m)
                    (omega (arith, length-u32_to_be m, st1, st2))) [
                      | inl (error, ran, why) ↦ inl (
                        error,
                        ground (arith, ran1, ran2, ran, length-u32_to_be n, len, decoded, read, e'),
                        inr why,
                      )
                      | inr (fd3, ran3, out3, in3, st3) ↦
                          elim (write_all_fd-Writes os laws fuel fd3 config_msg
                            (omega (arith, st1, st2, st3))) [
                              | inl (error, ran, why) ↦ inl (
                                error,
                                ground (
                                  arith,
                                  ran1,
                                  ran2,
                                  ran3,
                                  ran,
                                  length-u32_to_be n,
                                  len,
                                  decoded,
                                  read,
                                  e',
                                ),
                                inr why,
                              )
                              | inr (fd4, ran4, out4, in4, st4) ↦ inr (
                                fd4,
                                ground (
                                  arith,
                                  ran1,
                                  ran2,
                                  ran3,
                                  ran4,
                                  length-u32_to_be n,
                                  len,
                                  decoded,
                                  read,
                                  e',
                                ),
                                in4 ∙ in3 ∙ in2,
                                out4
                                    ∙ ap (λ t. t ++ config_msg)
                                        (out3 ∙ ap (λ t. t ++ u32_to_be m) (out2 ∙ out1))
                                    ∙ append_assoc (output fd) (u32_to_be m) config_msg,
                              )
                            ]
                    ]
            ]
          ]

    -- What `send_hello` writes, `perform_handshake` reads, whatever parts the system calls move, and
    -- unless a call of `read` or `write` fails, or the input ends, it answers with bytes from which `receive_config` reads exactly the
    -- TAP device's address, prefix length, MAC and MTU; bytes that follow on either side stay
    -- unread. The TAP address must be configured, the two messages have a JSON form and fit
    -- the length prefix, and the loops have more fuel than there are bytes to move and calls of `write` that put nothing.
    pub perform_handshake-agrees :
        (hello_msg config_msg rest tail : Bytes) (tap_ip : IpAddr) (n : ℕ) (fd : D)
        → config.peer_addr ≡ some (tap_ip, n)
        → encode_control hello_json (record {}) ≡ ok hello_msg
        → encode_control config_json
            (record { tap_ip = tap_ip; tap_mac = tap_mac; prefix_len = n; mtu = config.mtu })
          ≡ ok config_msg
        → length hello_msg < 2 ^ 32
        → Fits config_msg
        → length hello_msg + length config_msg + 4 + stalls fd < fuel
        → input fd ≡ framed hello_msg ++ rest
        → (send_hello hello_json config_json [] ≡ ok (framed hello_msg))
          × Leaves (handshake fd) rest (output fd ++ framed config_msg)
          × (receive_config hello_json config_json (framed config_msg ++ tail)
              ≡ ok (
                record { tap_ip = tap_ip; tap_mac = tap_mac; prefix_len = n; mtu = config.mtu },
                tail,
              ))
    unfolding config_message
    perform_handshake-agrees hello_msg config_msg rest tail tap_ip n fd addr e e' small fits enough
          there =
        (
          send_hello-framed hello_json config_json hello_msg e,
          perform_handshake-Leaves hello_msg config_msg rest fd e (ground (arith, addr, e')) small
              (omega arith) (omega arith) (omega arith) there,
          receive_config-framed hello_json config_json _ config_msg tail e' fits,
        )
