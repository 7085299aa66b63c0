-- ===== src/Stack/Smoltcp.antt =====
-- The smoltcp crate as src/stack/mod.rs uses it. It is not part of the repository: its sockets, its
-- socket set and its interface are abstract types with the operations that the code calls, and the
-- records of laws below say what the crate documents of them.
use tap_tunnel.Prelude.{
  ℕ, ◌≤◌, ◌≡◌, Bool, true, false, Option, none, some, List, ◌++◌, String, ◌⊎◌, inl, inr, length,
  take, ◌==◌, if◌then◌else◌,
}
use tap_tunnel.Bytes.{Bytes}
use tap_tunnel.Net.{IpAddress, IpEndpoint, IpListenEndpoint}

-- `smoltcp::socket::tcp::State`
pub data TcpState : Type 0 where
  closed listen syn_sent syn_received established fin_wait1 fin_wait2 : TcpState
  close_wait closing last_ack time_wait : TcpState

-- `smoltcp::wire::IpCidr`
pub record IpCidr : Type 0 where
  pub address : IpAddress
  pub prefix_len : ℕ

-- `smoltcp::iface::PollIngressSingleResult`
pub data Ingress : Type 0 where
  idle packet_processed socket_state_changed : Ingress

-- Of the results, `inl` is an error with its text, and `none` of an `Option` marked so is a panic.
pub record Smoltcp : Type 1 where
  pub TcpSocket : Type 0
  pub UdpSocket : Type 0
  pub SocketSet : Type 0
  pub Interface : Type 0
  pub Device : Type 0
  -- `tcp::Socket`; `tcp_new` takes the sizes of the two buffers, and `connect` uses the interface.
  pub tcp_new : ℕ → ℕ → TcpSocket
  pub connect :
      TcpSocket → Interface → IpEndpoint → IpListenEndpoint → Option String × TcpSocket × Interface
  pub listen_on : TcpSocket → IpListenEndpoint → Option String × TcpSocket
  pub tcp_close : TcpSocket → TcpSocket
  pub state : TcpSocket → TcpState
  pub remote_endpoint : TcpSocket → Option IpEndpoint
  pub local_endpoint : TcpSocket → Option IpEndpoint
  pub may_send : TcpSocket → Bool
  pub tcp_can_send : TcpSocket → Bool
  pub tcp_can_recv : TcpSocket → Bool
  pub tcp_send_slice : TcpSocket → Bytes → (String ⊎ ℕ) × TcpSocket
  -- `recv_slice` into a buffer of the given size: the bytes that it wrote.
  pub tcp_recv_slice : TcpSocket → ℕ → (String ⊎ Bytes) × TcpSocket
  -- `udp::Socket`; `udp_new` takes the packet slots and the bytes of each of the two buffers.
  pub udp_new : ℕ → ℕ → UdpSocket
  pub bind : UdpSocket → IpListenEndpoint → Option String × UdpSocket
  pub udp_close : UdpSocket → UdpSocket
  pub udp_can_send : UdpSocket → Bool
  pub udp_can_recv : UdpSocket → Bool
  pub udp_send_slice : UdpSocket → Bytes → IpEndpoint → Bool × UdpSocket
  pub udp_recv_slice : UdpSocket → ℕ → Option (Bytes × IpEndpoint) × UdpSocket
  -- `SocketSet`; `get_mut` panics on a handle that is not there or of the other kind, and what it
  -- lends is written back by `put`.
  pub no_sockets : SocketSet
  pub add_tcp : SocketSet → TcpSocket → ℕ × SocketSet
  pub add_udp : SocketSet → UdpSocket → ℕ × SocketSet
  pub get_tcp : SocketSet → ℕ → Option TcpSocket
  pub get_udp : SocketSet → ℕ → Option UdpSocket
  pub put_tcp : SocketSet → ℕ → TcpSocket → SocketSet
  pub put_udp : SocketSet → ℕ → UdpSocket → SocketSet
  pub remove_socket : SocketSet → ℕ → SocketSet
  -- `IpCidr::new` panics on a prefix that is too long; `push` on the fixed-size list of addresses
  -- may fail; `update_ip_addrs` panics on an address that is not unicast.
  pub cidr_new : IpAddress → ℕ → Option IpCidr
  pub ip_addrs : Interface → List IpCidr
  pub push_addr : List IpCidr → IpCidr → Option (List IpCidr)
  pub update_ip_addrs : Interface → List IpCidr → Option Interface
  -- One packet in; everything out (whether a socket changed its state).
  pub poll_ingress_single :
      Interface → Device → SocketSet → Ingress × Interface × Device × SocketSet
  pub poll_egress : Interface → Device → SocketSet → Bool × Interface × Device × SocketSet

-- `SocketSet` maps handles to sockets: `add` takes a free handle.
pub record SetLaws (net : Smoltcp) : Type 0 where
  pub fresh_tcp :
      (s : net.SocketSet) (x : net.TcpSocket)
      → (net.get_tcp s (net.add_tcp s x).0 ≡ none) × (net.get_udp s (net.add_tcp s x).0 ≡ none)
  pub fresh_udp :
      (s : net.SocketSet) (x : net.UdpSocket)
      → (net.get_tcp s (net.add_udp s x).0 ≡ none) × (net.get_udp s (net.add_udp s x).0 ≡ none)
  pub get_tcp-add_tcp :
      (s : net.SocketSet) (x : net.TcpSocket) (j : ℕ)
      → net.get_tcp (net.add_tcp s x).1 j
        ≡ (if (net.add_tcp s x).0 == j then some x else net.get_tcp s j)
  pub get_udp-add_tcp :
      (s : net.SocketSet) (x : net.TcpSocket) (j : ℕ)
      → net.get_udp (net.add_tcp s x).1 j ≡ net.get_udp s j
  pub get_udp-add_udp :
      (s : net.SocketSet) (x : net.UdpSocket) (j : ℕ)
      → net.get_udp (net.add_udp s x).1 j
        ≡ (if (net.add_udp s x).0 == j then some x else net.get_udp s j)
  pub get_tcp-add_udp :
      (s : net.SocketSet) (x : net.UdpSocket) (j : ℕ)
      → net.get_tcp (net.add_udp s x).1 j ≡ net.get_tcp s j
  pub get_tcp-put_tcp :
      (s : net.SocketSet) (h : ℕ) (x : net.TcpSocket) (j : ℕ)
      → net.get_tcp (net.put_tcp s h x) j ≡ (if h == j then some x else net.get_tcp s j)
  pub get_udp-put_tcp :
      (s : net.SocketSet) (h : ℕ) (x : net.TcpSocket) (j : ℕ)
      → net.get_udp s h ≡ none
      → net.get_udp (net.put_tcp s h x) j ≡ net.get_udp s j
  pub get_udp-put_udp :
      (s : net.SocketSet) (h : ℕ) (x : net.UdpSocket) (j : ℕ)
      → net.get_udp (net.put_udp s h x) j ≡ (if h == j then some x else net.get_udp s j)
  pub get_tcp-put_udp :
      (s : net.SocketSet) (h : ℕ) (x : net.UdpSocket) (j : ℕ)
      → net.get_tcp s h ≡ none
      → net.get_tcp (net.put_udp s h x) j ≡ net.get_tcp s j
  pub get_tcp-remove :
      (s : net.SocketSet) (h j : ℕ)
      → net.get_tcp (net.remove_socket s h) j ≡ (if h == j then none else net.get_tcp s j)
  pub get_udp-remove :
      (s : net.SocketSet) (h j : ℕ)
      → net.get_udp (net.remove_socket s h) j ≡ (if h == j then none else net.get_udp s j)
  -- A handle has one socket, of one kind.
  pub one_kind :
      (s : net.SocketSet) (h : ℕ) (x : net.TcpSocket)
      → net.get_tcp s h ≡ some x
      → net.get_udp s h ≡ none
  -- Polling changes sockets, but neither adds nor removes one.
  pub ingress_keeps :
      (i : net.Interface) (d : net.Device) (s : net.SocketSet) (j : ℕ)
      → ((x : net.TcpSocket)
          → net.get_tcp s j ≡ some x
          → (y : net.TcpSocket) × (net.get_tcp (net.poll_ingress_single i d s).3 j ≡ some y))
        × ((x : net.UdpSocket)
            → net.get_udp s j ≡ some x
            → (y : net.UdpSocket) × (net.get_udp (net.poll_ingress_single i d s).3 j ≡ some y))
  pub egress_keeps :
      (i : net.Interface) (d : net.Device) (s : net.SocketSet) (j : ℕ)
      → ((x : net.TcpSocket)
          → net.get_tcp s j ≡ some x
          → (y : net.TcpSocket) × (net.get_tcp (net.poll_egress i d s).3 j ≡ some y))
        × ((x : net.UdpSocket)
            → net.get_udp s j ≡ some x
            → (y : net.UdpSocket) × (net.get_udp (net.poll_egress i d s).3 j ≡ some y))

-- The byte streams of a TCP socket: what it was given to send, and what it has received and not
-- yet handed over.
pub record StreamLaws (net : Smoltcp) : Type 0 where
  pub outgoing : net.TcpSocket → Bytes
  pub incoming : net.TcpSocket → Bytes
  pub send-ok :
      (s : net.TcpSocket) (bs : Bytes) (n : ℕ)
      → (net.tcp_send_slice s bs).0 ≡ inr n
      → (n ≤ length bs) × (outgoing (net.tcp_send_slice s bs).1 ≡ outgoing s ++ take n bs)
  -- `send_slice` fails only on a socket that may not send.
  pub send-err :
      (s : net.TcpSocket) (bs : Bytes) (e : String)
      → (net.tcp_send_slice s bs).0 ≡ inl e
      → net.may_send s ≡ false
  pub can_send-may_send : (s : net.TcpSocket) → net.tcp_can_send s ≡ true → net.may_send s ≡ true
  pub outgoing-close : (s : net.TcpSocket) → outgoing (net.tcp_close s) ≡ outgoing s
  pub recv-ok :
      (s : net.TcpSocket) (n : ℕ) (bs : Bytes)
      → (net.tcp_recv_slice s n).0 ≡ inr bs
      → (length bs ≤ n) × (incoming s ≡ bs ++ incoming (net.tcp_recv_slice s n).1)
  pub recv-err :
      (s : net.TcpSocket) (n : ℕ) (e : String)
      → (net.tcp_recv_slice s n).0 ≡ inl e
      → incoming (net.tcp_recv_slice s n).1 ≡ incoming s
