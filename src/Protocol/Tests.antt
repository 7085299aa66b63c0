-- ===== src/Protocol/Tests.antt =====
-- The theorems on src/protocol.rs, at concrete messages and addresses.
use tap_tunnel.Prelude.{
  ℕ, ◌+◌, ◌%◌, ◌^◌, ◌≡◌, refl, sym, ◌↔◌, List, [], ◌∷◌, ◌++◌, none, some, arith, inr, ◌⊎◌, String,
  inl,
}
use tap_tunnel.Io.{ok}
use tap_tunnel.Bytes.{Bytes, from_be}
use tap_tunnel.Net.{v4, v6}
use tap_tunnel.Protocol.{control, frame, Json, encode_control, decode_message, decode_control}
use tap_tunnel.Protocol.Codec.{encoded, decode_message-eq-ok_iff, decode-encode_control}
use tap_tunnel.Protocol.Streams.{
  write_all_framed, read_all_framed, read_all_framed-write_all_framed,
}
use tap_tunnel.Protocol.Address.{debug, release, default_client_ip, validate_ip_in_subnet}
use tap_tunnel.Protocol.ClientIp.{
  default_client_ip-v4, default_client_ip-v4_builds, default_client_ip-v6,
}
use tap_tunnel.Protocol.Subnet.{
  in_subnet, validate_ip_in_subnet-in_subnet, validate_ip_in_subnet-zero,
}

-- One byte for a number, as a stand-in for its JSON.
abbrev byte_json : Json ℕ
byte_json = record { to_vec = λ n. inr (n ∷ []); from_slice = read; from_slice-to_vec = reads }
  where
    read : Bytes → String ⊎ ℕ
    read (n ∷ []) = inr n
    read _ = inl "expected one byte"

    reads :
        (x : ℕ) (json : Bytes)
        → ◌≡◌ {A = String ⊎ Bytes} (inr (x ∷ [])) (inr json)
        → read json ≡ inr x
    reads x json e = let q : x ∷ [] ≡ json = cc in rw (sym q)

abbrev two_messages : List Bytes
two_messages = (1 ∷ 170 ∷ 187 ∷ []) ∷ (0 ∷ []) ∷ []

read_all_framed-write_all_framed_example :
    (stream : Bytes) × (write_all_framed [] two_messages ≡ ok stream)
    × (read_all_framed 2 (9 ∷ []) (stream ++ 7 ∷ []) ≡ ok (two_messages, 7 ∷ []))
read_all_framed-write_all_framed_example =
    read_all_framed-write_all_framed (9 ∷ []) (7 ∷ []) two_messages
      ((omega arith, omega arith), ((omega arith, omega arith), tt))

decode_message-eq-ok_iff_example :
    (decode_message (1 ∷ 170 ∷ []) ≡ ok (frame (170 ∷ [])))
    ↔ (1 ∷ 170 ∷ [] ≡ encoded (frame (170 ∷ [])))
decode_message-eq-ok_iff_example = decode_message-eq-ok_iff (1 ∷ 170 ∷ []) (frame (170 ∷ []))

decode-encode_control_example :
    (payload : Bytes) × (decode_message (0 ∷ 5 ∷ []) ≡ ok (control payload))
    × (decode_control byte_json payload ≡ ok 5)
unfolding encode_control
decode-encode_control_example = decode-encode_control byte_json 5 (0 ∷ 5 ∷ []) refl

abbrev ten_dot_one : Bytes
ten_dot_one = 10 ∷ 0 ∷ 0 ∷ 255 ∷ []

default_client_ip-v4_example :
    (next : Bytes) × (default_client_ip debug (v4 ten_dot_one) ≡ some (v4 next))
    × (from_be next ≡ from_be ten_dot_one + 1)
unfolding tap_tunnel.Bytes.from_be_after
default_client_ip-v4_example = default_client_ip-v4 debug ten_dot_one (omega arith)

default_client_ip-v4_builds_example :
    ((next : Bytes) × (default_client_ip release (v4 (255 ∷ 255 ∷ 255 ∷ 255 ∷ [])) ≡ some (v4 next))
      × (from_be next ≡ (from_be (255 ∷ 255 ∷ 255 ∷ 255 ∷ []) + 1) % 2 ^ 32))
    × (default_client_ip debug (v4 (255 ∷ 255 ∷ 255 ∷ 255 ∷ [])) ≡ none
        ↔ from_be (255 ∷ 255 ∷ 255 ∷ 255 ∷ []) + 1 ≡ 2 ^ 32)
default_client_ip-v4_builds_example =
    default_client_ip-v4_builds (255 ∷ 255 ∷ 255 ∷ 255 ∷ []) (refl, omega arith)

abbrev fd00 : Bytes
fd00 = 253 ∷ 0 ∷ 0 ∷ 0 ∷ 0 ∷ 0 ∷ 0 ∷ 0 ∷ 0 ∷ 0 ∷ 0 ∷ 0 ∷ 0 ∷ 0 ∷ 1 ∷ 255 ∷ []

default_client_ip-v6_example :
    (next : Bytes) × (default_client_ip release (v6 fd00) ≡ some (v6 next))
    × (from_be next ≡ (from_be fd00 + 1) % 2 ^ 128)
default_client_ip-v6_example = default_client_ip-v6 release fd00 (refl, omega arith)

validate_ip_in_subnet-in_subnet_example :
    validate_ip_in_subnet debug (v4 (10 ∷ 0 ∷ 0 ∷ 9 ∷ [])) (v4 (10 ∷ 0 ∷ 0 ∷ 1 ∷ [])) 24
    ≡ some (in_subnet (v4 (10 ∷ 0 ∷ 0 ∷ 9 ∷ [])) (v4 (10 ∷ 0 ∷ 0 ∷ 1 ∷ [])) 24)
validate_ip_in_subnet-in_subnet_example =
    validate_ip_in_subnet-in_subnet debug (v4 (10 ∷ 0 ∷ 0 ∷ 9 ∷ [])) (v4 (10 ∷ 0 ∷ 0 ∷ 1 ∷ [])) 24
      (refl, omega arith) (refl, omega arith) (omega arith)

validate_ip_in_subnet-zero_example :
    (validate_ip_in_subnet debug (v6 fd00) (v6 fd00) 0 ≡ none)
    × (validate_ip_in_subnet release (v6 fd00) (v6 fd00) 0
        ≡ some (in_subnet (v6 fd00) (v6 fd00) 128))
validate_ip_in_subnet-zero_example =
    validate_ip_in_subnet-zero (v6 fd00) (v6 fd00) (refl, omega arith) (refl, omega arith)
