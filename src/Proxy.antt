-- ===== src/Proxy.antt =====
-- proxy/src/main.rs: the arguments, the ARP announcement and the commands. The kernel,
-- rtnetlink and the parsers of the standard library are parameters.
pub mod Answers
pub mod Handshake
pub mod Transfers
pub mod Agreement
pub mod Relay
mod Tests
use Prim.Native.String.{◌++◌ as str_append}
use tap_tunnel.Prelude.{
  ℕ, ℤ, zero, suc, ◌+◌, ◌-◌, ◌%◌, ◌^◌, ◌≤◌, Bool, true, false, Option, none, some, List, [], ◌∷◌,
  ◌++◌, String, take, drop, length, ◌==◌, ltb, leb, if◌then◌else◌, inl, inr, ◌⊎◌,
}
use tap_tunnel.Io.{
  IoResult, ok, err, IoError, io_error, invalid_data, invalid_input, unexpected_eof, ◌>>=◌,
}
use tap_tunnel.Bytes.{Bytes, from_be, u32_to_be}
use tap_tunnel.Net.{IpAddr, v4, v6}
use tap_tunnel.Protocol.{
  ClientHello, ProxyConfig, InterfaceStats, ProxyCommand, add_route, remove_route, get_iface_stats,
  ProxyResponse, ok_response, error_response, iface_stats, Message, control, frame, Json,
  encode_control, decode_control, decode_message,
}
use tap_tunnel.Tunnel.{
  TapConfig, new_config, with_interface_name, with_packet_loss_percent, with_mtu, with_peer_addr,
  with_peer_route,
}

-- What the code uses of the standard library's strings.
pub record Strings : Type 0 where
  pub split_slash : String → List String
  pub parse_ip : String → Option IpAddr
  pub parse_u8 : String → Option ℕ
  pub parse_u64 : String → Option ℕ
  pub lines : String → List String
  pub split_whitespace : String → List String
  pub trim_end_colons : String → String
  pub same : String → String → Bool

pub record Args : Type 0 where
  pub pid : Option ℕ
  pub frame_fd : Option ℤ
  pub socket_path : Option String
  pub tap_name : String
  pub tap_addr : Option String
  pub tap_route : List String
  pub packet_loss : ℕ
  pub mtu : ℕ

abbrev pub max_prefix : IpAddr → ℕ
max_prefix (v4 octets) = 32
max_prefix (v6 octets) = 128

module _ (std : Strings) where
  -- The two parts, parsed.
  unfoldable pub checked_prefix : Option IpAddr → Option ℕ → Option (IpAddr × ℕ)
  checked_prefix (some ip) (some prefix_len) =
      if ltb (max_prefix ip) prefix_len then none else some (ip, prefix_len)
  checked_prefix _ _ = none

  unfoldable pub parse_parts : List String → Option (IpAddr × ℕ)
  unfolding checked_prefix
  parse_parts (ip ∷ prefix_len ∷ []) = checked_prefix (std.parse_ip ip) (std.parse_u8 prefix_len)
  parse_parts _ = none

  unfoldable pub parse_ip_prefix : String → Option (IpAddr × ℕ)
  unfolding parse_parts
  parse_ip_prefix s = parse_parts (std.split_slash s)

  -- The routes of the arguments; one that does not parse is only logged.
  unfoldable pub add_routes : List String → TapConfig → TapConfig
  add_routes [] c = c
  add_routes (s ∷ rest) c = elim (parse_ip_prefix s) [
    | some (ip, prefix_len) ↦ add_routes rest (with_peer_route ip prefix_len c)
    | none ↦ add_routes rest c
  ]

  unfoldable pub add_addr : Option String → TapConfig → TapConfig
  add_addr none c = c
  add_addr (some s) c = elim (parse_ip_prefix s) [
    | some (ip, prefix_len) ↦ with_peer_addr ip prefix_len c
    | none ↦ c
  ]

  unfoldable pub build_tap_config : Args → TapConfig
  unfolding add_routes add_addr
  build_tap_config args = add_routes args.tap_route (
      add_addr args.tap_addr (
        with_mtu args.mtu (
          with_packet_loss_percent args.packet_loss
            (with_interface_name args.tap_name new_config))))

  -- `parts[i]`, of a list with at least 13 parts
  abbrev nth : ℕ → List String → String
  nth i [] = ""
  nth zero (s ∷ ss) = s
  nth (suc i) (s ∷ ss) = nth i ss

  unfoldable pub number_at : ℕ → List String → ℕ
  number_at i parts = elim (std.parse_u64 (nth i parts)) [ some n ↦ n | none ↦ 0 ]

  unfoldable pub stats_of : List String → InterfaceStats
  unfolding number_at
  stats_of parts = record {
    rx_bytes = number_at 1 parts;
    rx_packets = number_at 2 parts;
    rx_errors = number_at 3 parts;
    rx_dropped = number_at 4 parts;
    tx_bytes = number_at 9 parts;
    tx_packets = number_at 10 parts;
    tx_errors = number_at 11 parts;
    tx_dropped = number_at 12 parts;
  }

  -- `HashMap<String, InterfaceStats>::insert`
  unfoldable pub insert_stats :
      String → InterfaceStats → List (String × InterfaceStats) → List (String × InterfaceStats)
  insert_stats name s [] = (name, s) ∷ []
  insert_stats name s ((other, t) ∷ rest) =
      let rest' = insert_stats name s rest in
      if std.same other name then (name, s) ∷ rest else (other, t) ∷ rest'

  -- `for line in content.lines().skip(2)`
  unfoldable pub parse_lines :
      List String → List (String × InterfaceStats) → List (String × InterfaceStats)
  unfolding insert_stats stats_of
  parse_lines [] stats = stats
  parse_lines (line ∷ rest) stats =
      let parts = std.split_whitespace line in
      parse_lines rest (
        if leb 13 (length parts)
        then insert_stats (std.trim_end_colons (nth 0 parts)) (stats_of parts) stats
        else stats)

  -- From the text of /proc/net/dev, which the kernel gives or fails to.
  unfoldable pub read_proc_net_dev : IoResult String → IoResult (List (String × InterfaceStats))
  unfolding parse_lines
  read_proc_net_dev text = do content ← text; ok (parse_lines (drop 2 (std.lines content)) [])

-- `route::add_route` and `route::remove_route`, which call rtnetlink, and the kernel's
-- /proc/net/dev: `some` is an error's text.
pub record Routes (K : Type 0) : Type 0 where
  pub add_route : K → String → IpAddr → ℕ → Option String × K
  pub remove_route : K → String → IpAddr → ℕ → Option String × K
  pub proc_net_dev : K → IoResult String

abbrev pub command_id : ProxyCommand → ℕ
command_id (add_route id destination prefix_len) = id
command_id (remove_route id destination prefix_len) = id
command_id (get_iface_stats id) = id

-- `Ok(()) => ProxyResponse::ok(id), Err(e) => ProxyResponse::error(id, e.to_string())`
unfoldable pub response_to : ℕ → Option String → ProxyResponse
response_to id (some e) = error_response id e
response_to id none = ok_response id

module _ (std : Strings) {K : Type 0} (kernel : Routes K) where
  unfoldable pub handle_proxy_command : ProxyCommand → String → K → ProxyResponse × K
  unfolding response_to
  handle_proxy_command (add_route id destination prefix_len) iface_name k =
      let (result, k') = kernel.add_route k iface_name destination prefix_len in
      (response_to id result, k')
  handle_proxy_command (remove_route id destination prefix_len) iface_name k =
      let (result, k') = kernel.remove_route k iface_name destination prefix_len in
      (response_to id result, k')
  handle_proxy_command (get_iface_stats id) iface_name k = (
    elim (read_proc_net_dev std (kernel.proc_net_dev k)) [
      | ok interfaces ↦ iface_stats id interfaces
      | err e ↦ error_response id e.message
    ],
    k,
  )

unfoldable pub build_gratuitous_arp : (sender_mac sender_ip target_mac : Bytes) → Bytes
build_gratuitous_arp sender_mac sender_ip target_mac =
    (target_mac ++ sender_mac ++ 0x08 ∷ 0x06 ∷ [])
    ++ (0x00 ∷ 0x01 ∷ 0x08 ∷ 0x00 ∷ 6 ∷ 4 ∷ 0x00 ∷ 0x02 ∷ [])
    ++ sender_mac
    ++ sender_ip
    ++ target_mac
    ++ sender_ip
