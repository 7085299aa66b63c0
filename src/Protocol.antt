-- ===== src/Protocol.antt =====
-- src/protocol.rs: the messages between the library and the proxy, their JSON and wire encodings.
-- serde_json is not part of the repository: `Json` is what the code calls of it.
pub mod Framing
pub mod Address
pub mod Codec
pub mod Streams
pub mod ClientIp
pub mod Subnet
pub mod Toy
mod Tests
use Prim.Native.String.{◌++◌ as str_append}
use tap_tunnel.Prelude.{
  ℕ, zero, suc, ◌/◌, ◌%◌, String, Bool, [], ◌∷◌, List, ◌⊎◌, inl, inr, ◌==◌, if◌then◌else◌, ◌≡◌,
}
use tap_tunnel.Io.{IoResult, ok, err, io_error, IoError, invalid_data}
use tap_tunnel.Bytes.{Bytes}
use tap_tunnel.Net.{IpAddr}

abbrev pub msg_type_control : ℕ
msg_type_control = 0x00

abbrev pub msg_type_frame : ℕ
msg_type_frame = 0x01

pub record ClientHello : Type 0 where

pub record ProxyConfig : Type 0 where
  pub tap_ip : IpAddr
  pub tap_mac : Bytes
  pub prefix_len : ℕ
  pub mtu : ℕ

pub record InterfaceStats : Type 0 where
  pub rx_bytes : ℕ
  pub rx_packets : ℕ
  pub rx_errors : ℕ
  pub rx_dropped : ℕ
  pub tx_bytes : ℕ
  pub tx_packets : ℕ
  pub tx_errors : ℕ
  pub tx_dropped : ℕ

pub data ProxyCommand : Type 0 where
  add_route : (id : ℕ) (destination : IpAddr) (prefix_len : ℕ) → ProxyCommand
  remove_route : (id : ℕ) (destination : IpAddr) (prefix_len : ℕ) → ProxyCommand
  get_iface_stats : (id : ℕ) → ProxyCommand

-- The map of interfaces is an association list by name.
pub data ProxyResponse : Type 0 where
  ok_response : (id : ℕ) → ProxyResponse
  error_response : (id : ℕ) (error : String) → ProxyResponse
  iface_stats : (id : ℕ) (interfaces : List (String × InterfaceStats)) → ProxyResponse

-- `ProxyResponse::id`
unfoldable pub response_id : ProxyResponse → ℕ
response_id (ok_response id) = id
response_id (error_response id error) = id
response_id (iface_stats id interfaces) = id

pub data Message : Type 0 where
  control : Bytes → Message
  frame : Bytes → Message

-- `serde_json::to_vec` and `from_slice` at one type; `inl` is an error with its text. The law is
-- serde's: what was serialised reads back.
pub record Json (T : Type 0) : Type 0 where
  pub to_vec : T → String ⊎ Bytes
  pub from_slice : Bytes → String ⊎ T
  pub from_slice-to_vec : (x : T) (json : Bytes) → to_vec x ≡ inr json → from_slice json ≡ inr x

-- `map_err(|e| io::Error::new(InvalidData, e))`
abbrev or_invalid_data : {A : Type 0} → String ⊎ A → IoResult A
or_invalid_data (inl e) = err (io_error invalid_data e)
or_invalid_data (inr a) = ok a

module _ {T : Type 0} (serde : Json T) where
  unfoldable pub encode_control : T → IoResult Bytes
  encode_control msg = elim (or_invalid_data (serde.to_vec msg)) [
    | ok json ↦ ok (msg_type_control ∷ json)
    | err e ↦ err e
  ]

  unfoldable pub decode_control : Bytes → IoResult T
  decode_control payload = or_invalid_data (serde.from_slice payload)

unfoldable pub encode_frame : Bytes → Bytes
encode_frame f = msg_type_frame ∷ f

-- `{:02x}`
hex_digit : ℕ → List String → String
hex_digit n [] = ""
hex_digit zero (s ∷ ss) = s
hex_digit (suc n) (s ∷ ss) = hex_digit n ss

abbrev hex_digits : List String
hex_digits =
    "0" ∷ "1" ∷ "2" ∷ "3" ∷ "4" ∷ "5" ∷ "6" ∷ "7" ∷ "8" ∷ "9" ∷ "a" ∷ "b" ∷ "c" ∷ "d" ∷ "e" ∷ "f"
    ∷ []

unfoldable pub hex_byte : ℕ → String
unfolding hex_digit
hex_byte b = str_append (hex_digit (b / 16 % 16) hex_digits) (hex_digit (b % 16) hex_digits)

-- `PrettyHwAddr::fmt`
unfoldable pub pretty_hw_addr : Bytes → String
unfolding hex_byte
pretty_hw_addr [] = ""
pretty_hw_addr (b ∷ []) = hex_byte b
pretty_hw_addr (b ∷ c ∷ bs) = str_append (hex_byte b) (str_append "-" (pretty_hw_addr (c ∷ bs)))

unfoldable pub decode_message : Bytes → IoResult Message
decode_message [] = err (io_error invalid_data "empty message")
decode_message (msg_type ∷ payload) =
    if msg_type == msg_type_control
    then ok (control payload)
    else if msg_type == msg_type_frame
    then ok (frame payload)
    else err (io_error invalid_data (str_append "unknown message type: 0x" (hex_byte msg_type)))
