-- ===== src/Proxy/Tests.antt =====
-- The theorems on proxy/src/main.rs, at concrete arguments and on a descriptor that moves at most
-- two bytes a call.
use tap_tunnel.Prelude.{
  pos, inl, ◌⊎◌, ℕ, ◌≤◌, ◌<◌, ◌≡◌, refl, sym, ap, ◌∙◌, ◌↔◌, [], ◌∷◌, ◌++◌, none, some, false,
  length, take, drop, length-take, take-append-drop, min, arith, String, inl, inr, ◌⊎◌,
}
use tap_tunnel.Io.{IoResult, ok}
use tap_tunnel.Bytes.{Bytes, u32_to_be}
use tap_tunnel.Net.{IpAddr, v4, v6}
use tap_tunnel.Protocol.{ClientHello, ProxyConfig, Json, encode_control}
use tap_tunnel.Protocol.Framing.{read_bytes, write_bytes}
use tap_tunnel.Protocol.Streams.{framed}
use tap_tunnel.Tunnel.{TapConfig, new_config, with_peer_addr, send_hello, receive_config}
use tap_tunnel.Proxy.Agreement.{Leaves, perform_handshake-agrees}
use tap_tunnel.Proxy.{Strings, Args, parse_ip_prefix, build_tap_config}
use tap_tunnel.Proxy.Handshake.{Descriptor, read_exact_fd, write_all_fd, perform_handshake}
use tap_tunnel.Proxy.Answers.{
  IsPrefix, parsed, parse_ip_prefix-eq-some_iff, build_tap_config-parsed,
}
use tap_tunnel.Proxy.Transfers.{
  DescriptorLaws, Writes, ReadsExactly, write_all_fd-Writes, read_exact_fd-ReadsExactly,
}

abbrev pub ten : IpAddr
ten = v4 (10 ∷ 0 ∷ 0 ∷ 1 ∷ [])

-- Strings of which every one reads as 10.0.0.1/24.
abbrev pub strings : Strings
strings = record {
  split_slash = λ s. "10.0.0.1" ∷ "24" ∷ [];
  parse_ip = λ s. some ten;
  parse_u8 = λ s. some 24;
  parse_u64 = λ s. some 5;
  lines = λ s. s ∷ [];
  split_whitespace = λ s. s ∷ [];
  trim_end_colons = λ s. s;
  same = λ s t. false;
}

parse_ip_prefix-eq-some_iff_example :
    (parse_ip_prefix strings "10.0.0.1/24" ≡ some (ten, 24)) ↔ IsPrefix strings "10.0.0.1/24" ten 24
parse_ip_prefix-eq-some_iff_example = parse_ip_prefix-eq-some_iff strings "10.0.0.1/24" ten 24

abbrev args : Args
args = record {
  pid = some 4711;
  frame_fd = some (pos 5);
  socket_path = none;
  tap_name = "tap7";
  tap_addr = some "10.0.0.1/24";
  tap_route = "10.0.0.1/24" ∷ [];
  packet_loss = 3;
  mtu = 9000;
}

build_tap_config-parsed_example : build_tap_config strings args ≡ record {
  interface_name = "tap7";
  peer_addr = parse_ip_prefix strings "10.0.0.1/24";
  local_addr = none;
  mac = none;
  packet_loss_percent = 3;
  peer_routes = parsed strings ("10.0.0.1/24" ∷ []);
  mtu = 9000;
}
build_tap_config-parsed_example = build_tap_config-parsed strings args

abbrev Pipe : Type 0
Pipe = Bytes × Bytes

-- At most two bytes a call.
abbrev slow : Descriptor Pipe
slow = record {
  read = λ p n. ok (take (min n 2) p.0, (drop (min n 2) p.0, p.1));
  write = λ p bs. ok (length (take 2 bs), (p.0, p.1 ++ take 2 bs));
}

-- No call puts nothing.
abbrev no_stalls : Pipe → ℕ
no_stalls p = 0

slow-read :
    (p : Pipe) (n : ℕ) (bs : Bytes) (p' : Pipe)
    → ◌≡◌ {A = IoResult (Bytes × Pipe)}
        (ok (take (min n 2) p.0, (drop (min n 2) p.0, p.1)))
        (ok (bs, p'))
    → (length bs ≤ n) × (p.0 ≡ bs ++ p'.0) × (p'.1 ≡ p.1) × (no_stalls p' ≡ no_stalls p)
slow-read p n bs p' e =
    let front : take (min n 2) p.0 ≡ bs = cc in
    let rest : drop (min n 2) p.0 ≡ p'.0 = ground arith in
    (
      omega (arith, length-take (min n 2) p.0, ap length front),
      sym (take-append-drop (min n 2) p.0) ∙ rw (front, rest) refl,
      ground arith,
      refl,
    )

slow-write :
    (p : Pipe) (bs : Bytes) (n : ℕ) (p' : Pipe)
    → ◌≡◌ {A = IoResult (ℕ × Pipe)} (ok (length (take 2 bs), (p.0, p.1 ++ take 2 bs))) (ok (n, p'))
    → 0 < length bs
    → (n ≤ length bs)
      × (p'.1 ≡ p.1 ++ take n bs)
      × (p'.0 ≡ p.0)
      × (((0 < n) × (no_stalls p' ≡ no_stalls p)) ⊎ (no_stalls p' < no_stalls p))
slow-write p [] n p' e h = absurd (omega arith)
slow-write p (b ∷ []) n p' e h =
    let len : 1 ≡ n = ground arith in
    (omega arith, rw (sym len) (ground arith), ground arith, inl (omega arith, refl))
slow-write p (b ∷ c ∷ bs) n p' e h =
    let len : 2 ≡ n = ground arith in
    (omega arith, rw (sym len) (ground arith), ground arith, inl (omega arith, refl))

abbrev slow_laws : DescriptorLaws slow
slow_laws = record {
  input = λ p. p.0;
  output = λ p. p.1;
  stalls = no_stalls;
  read-ok = slow-read;
  write-ok = slow-write;
}

abbrev pipe : Pipe
pipe = (1 ∷ 2 ∷ 3 ∷ 4 ∷ 5 ∷ [], [])

write_all_fd-Writes_example :
    Writes slow slow_laws (write_all_fd slow 4 pipe (7 ∷ 8 ∷ 9 ∷ [])) pipe (7 ∷ 8 ∷ 9 ∷ [])
write_all_fd-Writes_example =
    write_all_fd-Writes slow slow_laws 4 pipe (7 ∷ 8 ∷ 9 ∷ []) (omega arith)

read_exact_fd-ReadsExactly_example :
    ReadsExactly slow slow_laws (read_exact_fd slow 4 pipe 3) pipe 3
read_exact_fd-ReadsExactly_example =
    read_exact_fd-ReadsExactly slow slow_laws 4 pipe 3 (omega arith)

-- Formats of the two handshake messages: a hello is empty, and a configuration has a form when its
-- address is of IPv4 and its MAC is one byte.
abbrev hello_json : Json ClientHello
hello_json = record {
  to_vec = λ x. inr [];
  from_slice = λ bs. inr (record {});
  from_slice-to_vec = λ x json e. refl;
}

abbrev write_parts : IpAddr → Bytes → ℕ → ℕ → String ⊎ Bytes
write_parts (v4 octets) (b ∷ []) n m = inr (n ∷ m ∷ b ∷ octets)
write_parts _ _ n m = inl "no form"

abbrev read_parts : Bytes → String ⊎ ProxyConfig
read_parts (n ∷ m ∷ b ∷ octets) =
    inr (record { tap_ip = v4 octets; tap_mac = b ∷ []; prefix_len = n; mtu = m })
read_parts _ = inl "too short"

read-write_parts :
    (ip : IpAddr) (mac : Bytes) (n m : ℕ) (json : Bytes)
    → write_parts ip mac n m ≡ inr json
    → read_parts json ≡ inr (record { tap_ip = ip; tap_mac = mac; prefix_len = n; mtu = m })
read-write_parts (v4 octets) (b ∷ []) n m json e =
    let same : n ∷ m ∷ b ∷ octets ≡ json = cc in ap read_parts (sym same)
read-write_parts (v4 octets) [] n m json e = absurd cc
read-write_parts (v4 octets) (b ∷ c ∷ mac) n m json e = absurd cc
read-write_parts (v6 octets) mac n m json e = absurd cc

abbrev config_json : Json ProxyConfig
config_json = record {
  to_vec = λ x. write_parts x.tap_ip x.tap_mac x.prefix_len x.mtu;
  from_slice = read_parts;
  from_slice-to_vec = λ x json e. read-write_parts x.tap_ip x.tap_mac x.prefix_len x.mtu json e;
}

abbrev tap_config : TapConfig
tap_config = with_peer_addr ten 24 new_config

-- The hello, and a byte after it.
abbrev waiting : Pipe
waiting = (0 ∷ 0 ∷ 0 ∷ 1 ∷ 0 ∷ 9 ∷ [], [])

abbrev config_bytes : Bytes
config_bytes = 0 ∷ 24 ∷ 1500 ∷ 2 ∷ 10 ∷ 0 ∷ 0 ∷ 1 ∷ []

perform_handshake-agrees_example :
    (send_hello hello_json config_json [] ≡ ok (framed (0 ∷ [])))
    × Leaves slow slow_laws
        (perform_handshake slow 20 hello_json config_json tap_config (2 ∷ []) waiting)
        (9 ∷ [])
        (framed config_bytes)
    × (receive_config hello_json config_json (framed config_bytes ++ 7 ∷ [])
        ≡ ok (record { tap_ip = ten; tap_mac = 2 ∷ []; prefix_len = 24; mtu = 1500 }, 7 ∷ []))
unfolding encode_control framed u32_to_be
perform_handshake-agrees_example =
    perform_handshake-agrees slow slow_laws hello_json config_json 20 tap_config (2 ∷ []) (0 ∷ [])
      config_bytes (9 ∷ []) (7 ∷ []) ten 24 waiting refl refl refl (omega arith)
      (omega arith, omega arith) (omega arith) refl
