-- ===== src/Tunnel/Reader/Serve.antt =====
-- The reader task of src/lib.rs, seen as a handler of messages.
use tap_tunnel.Prelude.{
  ℕ, zero, suc, ◌<◌, ◌≡◌, refl, ap, ◌∙◌, true, false, some, List, [], ◌∷◌, ◌++◌, append_assoc, map,
  length, All, arith, Bool-cases, inl, inr, ◌%◌, ◌^◌,
}
use tap_tunnel.Io.{ok, err, io_error, unexpected_eof}
use tap_tunnel.Bytes.{Bytes, from_be, u32_to_be, from_be-u32_to_be}
use tap_tunnel.Channel.{Mpsc}
use tap_tunnel.Protocol.{Message, Json, ProxyResponse, decode_message}
use tap_tunnel.Protocol.Codec.{encoded, decode_message-eq-ok_iff}
use tap_tunnel.Protocol.Framing.{read_bytes}
use tap_tunnel.Protocol.Streams.{framed, framed_all, read_prefix, read_body}
use tap_tunnel.Tunnel.Reader.{IpcReader, handle_message, read_message, reader_loop}

-- One framed message, read from the front of a stream; an empty one too.
pub read_message-framed :
    (frames : Mpsc Bytes) (msg rest : Bytes)
    → length msg < 2 ^ 32
    → read_message frames (framed msg ++ rest) ≡ ok (msg, rest)
unfolding read_message framed
read_message-framed frames msg rest few =
    let len : from_be (u32_to_be (length msg % 2 ^ 32)) ≡ length msg =
      omega (arith, from_be-u32_to_be (length msg % 2 ^ 32)) in
    rw (append_assoc, read_prefix (length msg % 2 ^ 32) (msg ++ rest))
      (rw len (read_body (length msg) msg rest refl))

module _ (frames : Mpsc Bytes) (serde : Json ProxyResponse) where
  -- What the task does, message by message, until the channel of frames is closed or the stream
  -- ends.
  unfoldable pub serve : List Message → IpcReader frames → IpcReader frames
  serve [] s = record s { ipc_dead = true }
  serve (m ∷ ms) s =
      let (go_on, s') = handle_message frames serde (ok m) s in
      elim go_on [ true ↦ serve ms s' | false ↦ s' ]

  -- A message that fits the prefix.
  abbrev pub IsShort : Message → Type 0
  IsShort m = length (encoded m) < 2 ^ 32

  -- On the bytes of any sequence of messages, followed by fewer bytes than a prefix, the reader task
  -- ends, and does what `serve` does with the messages one by one; it needs one step of fuel for
  -- each message and one more.
  pub reader_loop-serve :
      (ms : List Message) (rest : Bytes) (fuel : ℕ) (s : IpcReader frames)
      → All IsShort ms
      → length rest < 4
      → length ms < fuel
      → reader_loop frames serde fuel (framed_all (map encoded ms) ++ rest) s ≡ some (serve ms s)
  unfolding reader_loop serve
  reader_loop-serve ms rest zero s short cut enough = absurd (omega arith)
  reader_loop-serve [] rest (suc fuel) s short cut enough =
      let ends : read_message frames rest
          ≡ err (io_error unexpected_eof "failed to fill whole buffer") =
        unfold read_message in ground arith in
      ground (arith, ends)
  reader_loop-serve (m ∷ ms) rest (suc fuel) s (short, others) cut enough =
      let here : read_message frames (framed_all (map encoded (m ∷ ms)) ++ rest)
          ≡ ok (encoded m, framed_all (map encoded ms) ++ rest) =
        ap (read_message frames) (append_assoc (framed (encoded m)) _ rest)
        ∙ read_message-framed frames (encoded m) (framed_all (map encoded ms) ++ rest) short in
      let decoded : decode_message (encoded m) ≡ ok m =
        (decode_message-eq-ok_iff (encoded m) m).1 refl in
      elim (Bool-cases (handle_message frames serde (ok m) s).0) [
        | inl goes ↦ ground (
          arith,
          here,
          decoded,
          reader_loop-serve ms rest fuel (handle_message frames serde (ok m) s).1 others cut,
        )
        | inr stops ↦ ground (arith, here, decoded)
      ]
