-- ===== src/Tunnel.antt =====
-- src/lib.rs: the configuration of a tunnel, the client's side of the handshake, and the closing of
-- a tunnel.
pub mod Close
pub mod Reader
pub mod Writer
pub mod Requests
pub mod Launch
pub mod Api
mod Tests
use tap_tunnel.Prelude.{
  ℕ, zero, suc, ◌+◌, ◌%◌, ◌^◌, Bool, true, false, Option, none, some, List, [], ◌∷◌, ◌++◌, String,
  take, drop, replicate, ◌==◌, if◌then◌else◌,
}
use tap_tunnel.Io.{IoResult, ok, err, io_error, invalid_data, ◌>>=◌}
use tap_tunnel.Bytes.{Bytes}
use tap_tunnel.Net.{IpAddr}
use tap_tunnel.Protocol.{
  ClientHello, ProxyConfig, Message, control, frame, Json, encode_control, decode_control,
  decode_message,
}
use tap_tunnel.Protocol.Framing.{Write, Read, write_framed_sync, read_framed_sync}
use tap_tunnel.Protocol.Address.{Profile, default_client_ip}

abbrev pub default_mtu : ℕ
default_mtu = 1500

pub record TapConfig : Type 0 where
  pub interface_name : String
  pub peer_addr : Option (IpAddr × ℕ)
  pub local_addr : Option (IpAddr × ℕ)
  pub mac : Option Bytes
  pub packet_loss_percent : ℕ
  pub peer_routes : List (IpAddr × ℕ)
  pub mtu : ℕ

-- `TapConfig::new`, and the builder's methods.
abbrev pub new_config : TapConfig
new_config = record {
  interface_name = "tap0";
  peer_addr = none;
  local_addr = none;
  mac = none;
  packet_loss_percent = 0;
  peer_routes = [];
  mtu = default_mtu;
}

abbrev pub with_interface_name : String → TapConfig → TapConfig
with_interface_name name c = record c { interface_name = name }

abbrev pub with_peer_addr : IpAddr → ℕ → TapConfig → TapConfig
with_peer_addr addr prefix_len c = record c { peer_addr = some (addr, prefix_len) }

abbrev pub with_local_addr : IpAddr → ℕ → TapConfig → TapConfig
with_local_addr addr prefix_len c = record c { local_addr = some (addr, prefix_len) }

abbrev pub with_mac : Bytes → TapConfig → TapConfig
with_mac mac c = record c { mac = some mac }

abbrev pub with_packet_loss_percent : ℕ → TapConfig → TapConfig
with_packet_loss_percent percent c = record c { packet_loss_percent = percent }

abbrev pub with_peer_route : IpAddr → ℕ → TapConfig → TapConfig
with_peer_route dest prefix_len c = record c {
  peer_routes = c.peer_routes ++ (dest, prefix_len) ∷ [];
}

abbrev pub with_mtu : ℕ → TapConfig → TapConfig
with_mtu mtu c = record c { mtu = mtu }

-- The configuration that the client derives from the proxy's, in `connect_to_blocking`: the
-- address asked for, or the default one. `none` is a panic of `default_client_ip`.
unfoldable pub client_config : Profile → Option IpAddr → TapConfig → ProxyConfig → Option TapConfig
client_config profile local_ip config proxy =
    let picked : Option IpAddr = elim local_ip [
      | some ip ↦ some ip
      | none ↦ default_client_ip profile proxy.tap_ip
    ] in
    elim picked [
      | none ↦ none
      | some client_ip ↦ some (
          with_mtu proxy.mtu (
            with_local_addr client_ip proxy.prefix_len
              (with_peer_addr proxy.tap_ip proxy.prefix_len config)))
    ]

-- The MAC of `connect_with_config_blocking`, when none is given: the low byte of the PID, last.
unfoldable pub pid_mac : ℕ → TapConfig → TapConfig
pid_mac pid c = elim c.mac [
  | some mac ↦ c
  | none ↦ record c { mac = some (0x02 ∷ 0x00 ∷ 0x00 ∷ 0x00 ∷ 0x00 ∷ (pid % 256) ∷ []) }
]

-- `match msg { Message::Control(payload) => decode_control(&payload)?, … }`
unfoldable pub expect_config : Json ProxyConfig → Message → IoResult ProxyConfig
expect_config serde (control payload) = decode_control serde payload
expect_config serde (frame f) = err (io_error invalid_data "expected ProxyConfig, got frame")

module _ (hello_json : Json ClientHello) (config_json : Json ProxyConfig) where
  -- The client's half of the handshake in `connect_to_blocking`, before and after the proxy's turn.
  unfoldable pub send_hello : {W : Type 0} ⦃w : Write W⦄ → W → IoResult W
  send_hello writer = do
    hello_msg ← encode_control hello_json (record {})
    write_framed_sync writer hello_msg

  unfoldable pub receive_config : {R : Type 0} ⦃r : Read R⦄ → R → IoResult (ProxyConfig × R)
  unfolding expect_config
  receive_config reader = do
    (n, buf, reader') ← read_framed_sync reader (replicate 1024 0)
    msg ← decode_message (take n buf)
    config ← expect_config config_json msg
    ok (config, reader')
