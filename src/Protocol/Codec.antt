-- ===== src/Protocol/Codec.antt =====
-- The type byte of a message (src/protocol.rs): what `decode_message` accepts is what the two
-- encoders write.
use tap_tunnel.Prelude.{◌≡◌, refl, ◌↔◌, [], ◌∷◌, arith}
use tap_tunnel.Io.{ok, err, IoError, invalid_data}
use tap_tunnel.Bytes.{Bytes}
use tap_tunnel.Protocol.{
  Message, control, frame, decode_message, encode_frame, encode_control, decode_control, Json,
  msg_type_control, msg_type_frame,
}

-- The wire form of a message whose payload is already encoded.
abbrev pub encoded : Message → Bytes
encoded (control payload) = msg_type_control ∷ payload
encoded (frame f) = msg_type_frame ∷ f

-- `decode_message` answers `m` exactly on the wire form of `m`: every message decodes to itself,
-- and nothing else decodes to it.
pub decode_message-eq-ok_iff :
    (bs : Bytes) (m : Message) → (decode_message bs ≡ ok m) ↔ (bs ≡ encoded m)
unfolding decode_message
decode_message-eq-ok_iff [] (control p) = (λ h. cc, λ h. cc)
decode_message-eq-ok_iff [] (frame p) = (λ h. cc, λ h. cc)
decode_message-eq-ok_iff (b ∷ bs) (control p) = (λ h. ground arith, λ h. ground arith)
decode_message-eq-ok_iff (b ∷ bs) (frame p) = (λ h. ground arith, λ h. ground arith)

-- Whatever is refused is refused as invalid data.
pub decode_message-err :
    (bs : Bytes) (e : IoError) → decode_message bs ≡ err e → e.kind ≡ invalid_data
unfolding decode_message
decode_message-err [] e h = ground arith
decode_message-err (b ∷ bs) e h = ground arith

pub decode_message-encode_frame : (f : Bytes) → decode_message (encode_frame f) ≡ ok (frame f)
unfolding decode_message encode_frame
decode_message-encode_frame f = refl

-- A control message that was encoded decodes to a control message with a payload from which the
-- value reads back.
pub decode-encode_control :
    {T : Type 0} (serde : Json T) (x : T) (msg : Bytes)
    → encode_control serde x ≡ ok msg
    → (payload : Bytes) × (decode_message msg ≡ ok (control payload))
      × (decode_control serde payload ≡ ok x)
unfolding encode_control decode_control decode_message
decode-encode_control serde x [] h = absurd (ground arith)
decode-encode_control serde x (b ∷ json) h =
    (json, ground arith, ground (arith, serde.from_slice-to_vec x json))
