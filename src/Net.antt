-- ===== src/Net.antt =====
-- `std::net` addresses as the repository uses them (`IpAddr`, `SocketAddr`), and the address types
-- of the smoltcp crate's interface (`IpAddress`, `IpEndpoint`, `IpListenEndpoint`). An address is
-- its octets, in network order. The conversions are those at the end of src/stack/mod.rs.
use native.Mathlib.Decide.{ℕ_discrete}
use tap_tunnel.Prelude.{
  ℕ, ◌≡◌, refl, Bool, true, ◌&&◌, Option, none, some, [], ◌∷◌, ◌==◌, if◌then◌else◌, length,
}
use tap_tunnel.Bytes.{Bytes, IsBytes}

pub data IpAddr : Type 0 where
  v4 : Bytes → IpAddr
  v6 : Bytes → IpAddr

-- What the types `[u8; 4]` and `[u8; 16]` ensure.
abbrev pub IsIp : IpAddr → Type 0
IsIp (v4 octets) = (length octets ≡ 4) × IsBytes octets
IsIp (v6 octets) = (length octets ≡ 16) × IsBytes octets

-- `IpAddr::is_unspecified`: every octet is zero.
all_zero : Bytes → Bool
all_zero [] = true
all_zero (b ∷ bs) = b == 0 && all_zero bs

unfoldable pub is_unspecified : IpAddr → Bool
unfolding all_zero
is_unspecified (v4 octets) = all_zero octets
is_unspecified (v6 octets) = all_zero octets

pub data SocketAddr : Type 0 where
  socket_v4 : (ip : Bytes) (port : ℕ) → SocketAddr
  socket_v6 : (ip : Bytes) (port flowinfo scope_id : ℕ) → SocketAddr

abbrev pub ip : SocketAddr → IpAddr
ip (socket_v4 a p) = v4 a
ip (socket_v6 a p f s) = v6 a

abbrev pub port : SocketAddr → ℕ
port (socket_v4 a p) = p
port (socket_v6 a p f s) = p

-- `smoltcp::wire::IpAddress`
pub data IpAddress : Type 0 where
  ipv4 : Bytes → IpAddress
  ipv6 : Bytes → IpAddress

pub IpAddress-discrete : Discrete IpAddress
IpAddress-discrete = hlevel ℕ_discrete

pub record IpEndpoint : Type 0 where
  pub addr : IpAddress
  pub port : ℕ

pub record IpListenEndpoint : Type 0 where
  pub addr : Option IpAddress
  pub port : ℕ

unfoldable pub ip_addr_to_smoltcp : IpAddr → IpAddress
ip_addr_to_smoltcp (v4 octets) = ipv4 octets
ip_addr_to_smoltcp (v6 octets) = ipv6 octets

unfoldable pub smoltcp_to_ip_addr : IpAddress → IpAddr
smoltcp_to_ip_addr (ipv4 octets) = v4 octets
smoltcp_to_ip_addr (ipv6 octets) = v6 octets

unfoldable pub make_socket_addr : IpAddr → ℕ → SocketAddr
make_socket_addr (v4 a) p = socket_v4 a p
make_socket_addr (v6 a) p = socket_v6 a p 0 0

unfoldable pub socket_addr_to_endpoint : SocketAddr → IpEndpoint
unfolding ip_addr_to_smoltcp
socket_addr_to_endpoint a = record { addr = ip_addr_to_smoltcp (ip a); port = port a }

unfoldable pub endpoint_to_socket_addr : IpEndpoint → SocketAddr
unfolding make_socket_addr smoltcp_to_ip_addr
endpoint_to_socket_addr e = make_socket_addr (smoltcp_to_ip_addr e.addr) e.port

unfoldable pub socket_addr_to_listen_endpoint_with_port : SocketAddr → ℕ → IpListenEndpoint
unfolding is_unspecified ip_addr_to_smoltcp
socket_addr_to_listen_endpoint_with_port a p = record {
  addr = if is_unspecified (ip a) then none else some (ip_addr_to_smoltcp (ip a));
  port = p;
}

unfoldable pub socket_addr_to_listen_endpoint : SocketAddr → IpListenEndpoint
unfolding is_unspecified ip_addr_to_smoltcp
socket_addr_to_listen_endpoint a = record {
  addr = if is_unspecified (ip a) then none else some (ip_addr_to_smoltcp (ip a));
  port = port a;
}

-- A peer address survives the trip through smoltcp, but for an IPv6 flow label and scope, which
-- come back as 0. An endpoint comes back whole.
pub endpoint_to_socket_addr-socket_addr_to_endpoint :
    (a : SocketAddr)
    → endpoint_to_socket_addr (socket_addr_to_endpoint a) ≡ make_socket_addr (ip a) (port a)
unfolding endpoint_to_socket_addr socket_addr_to_endpoint
endpoint_to_socket_addr-socket_addr_to_endpoint (socket_v4 a p) = refl
endpoint_to_socket_addr-socket_addr_to_endpoint (socket_v6 a p f s) = refl

pub smoltcp_to_ip_addr-ip_addr_to_smoltcp :
    (a : IpAddr) → smoltcp_to_ip_addr (ip_addr_to_smoltcp a) ≡ a
unfolding smoltcp_to_ip_addr ip_addr_to_smoltcp
smoltcp_to_ip_addr-ip_addr_to_smoltcp (v4 a) = refl
smoltcp_to_ip_addr-ip_addr_to_smoltcp (v6 a) = refl
