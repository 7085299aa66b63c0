-- ===== src/Stack/State.antt =====
-- The types of src/stack/mod.rs: channels, pending operations, listeners, commands, and the state
-- that `run_stack` keeps in its locals. A `oneshot` sender is a number; what is sent on it is
-- recorded in `replies`, and a sender that is dropped unused never occurs there.
use tap_tunnel.Prelude.{ℕ, ◌+◌, ◌%◌, ◌^◌, Option, none, List, [], ◌∷◌, ◌++◌}
use tap_tunnel.Io.{IoError}
use tap_tunnel.Bytes.{Bytes}
use tap_tunnel.Net.{IpAddr, SocketAddr}
use tap_tunnel.Map.{Map}
use tap_tunnel.Channel.{Mpsc}
use tap_tunnel.Stats.{TunnelStats}
use tap_tunnel.Stack.Smoltcp.{Smoltcp}

abbrev pub ingress_batch_size : ℕ
ingress_batch_size = 256

abbrev pub tcp_socket_buffer_size : ℕ
tcp_socket_buffer_size = 65535

abbrev pub udp_packet_buffer_size : ℕ
udp_packet_buffer_size = 65535

abbrev pub udp_read_buf_size : ℕ
udp_read_buf_size = 9216

abbrev pub udp_packet_metadata_slots : ℕ
udp_packet_metadata_slots = 256

abbrev pub ephemeral_port_start : ℕ
ephemeral_port_start = 49152

abbrev pub tcp_channel_capacity : ℕ
tcp_channel_capacity = 8

abbrev pub udp_channel_capacity : ℕ
udp_channel_capacity = 512

abbrev pub Datagram : Type 0
Datagram = Bytes × SocketAddr

-- The crates that the stack task uses: smoltcp, and tokio's channels of chunks and of datagrams.
pub record World : Type 1 where
  pub net : Smoltcp
  pub open net use *
  pub tcp : Mpsc Bytes
  pub udp : Mpsc Datagram

pub record StackConfig : Type 0 where
  pub mac : Bytes
  pub ip : IpAddr
  pub prefix_len : ℕ
  pub gateway : IpAddr

-- All handles share one `Notify`, which carries no data, so the channel pairs leave it out.
pub record TcpChannels (w : World) : Type 0 where
  pub write_tx : w.tcp.Tx
  pub read_rx : w.tcp.Rx

pub record TcpSocketState (w : World) : Type 0 where
  pub write_rx : w.tcp.Rx
  pub read_tx : w.tcp.Tx
  pub pending_write : Option Bytes

pub record UdpChannels (w : World) : Type 0 where
  pub write_tx : w.udp.Tx
  pub read_rx : w.udp.Rx

pub record UdpSocketState (w : World) : Type 0 where
  pub write_rx : w.udp.Rx
  pub read_tx : w.udp.Tx

pub data PendingOp (w : World) : Type 0 where
  tcp_connect :
      (local_addr peer_addr : SocketAddr) (channels : TcpChannels w) (response : ℕ) → PendingOp w
  tcp_accept : (response : ℕ) → PendingOp w

pub record ListenerState : Type 0 where
  pub addr : SocketAddr
  pub listening_handles : List ℕ

pub data StackCommand : Type 0 where
  tcp_connect : (local_ip : Option IpAddr) (addr : SocketAddr) (response : ℕ) → StackCommand
  tcp_listen : (addr : SocketAddr) (backlog response : ℕ) → StackCommand
  tcp_accept : (handle response : ℕ) → StackCommand
  tcp_listener_close : (handle : ℕ) → StackCommand
  tcp_close : (handle : ℕ) → StackCommand
  udp_bind : (addr : SocketAddr) (response : ℕ) → StackCommand
  udp_close : (handle : ℕ) → StackCommand
  add_ip : (ip : IpAddr) (prefix_len response : ℕ) → StackCommand
  remove_ip : (ip : IpAddr) (response : ℕ) → StackCommand
  get_ips : (response : ℕ) → StackCommand

-- What a response carries: the tuples of the response types, or an error.
pub data Reply (w : World) : Type 0 where
  stream : (handle : ℕ) (local_addr peer_addr : SocketAddr) (channels : TcpChannels w) → Reply w
  listening : (handle : ℕ) (addr : SocketAddr) → Reply w
  bound : (handle : ℕ) (addr : SocketAddr) (channels : UdpChannels w) → Reply w
  done : Reply w
  ips : List (IpAddr × ℕ) → Reply w
  failed : IoError → Reply w

pub record Stack (w : World) : Type 0 where
  pub config : StackConfig
  pub iface : w.Interface
  pub sockets : w.SocketSet
  pub pending : Map (PendingOp w)
  pub listeners : Map ListenerState
  pub tcp_states : Map (TcpSocketState w)
  pub udp_states : Map (UdpSocketState w)
  pub ephemeral_port : ℕ
  pub stats : TunnelStats
  pub replies : List (ℕ × Reply w)

module _ (w : World) where
  -- `let _ = response.send(reply)`
  unfoldable pub send : Stack w → ℕ → Reply w → Stack w
  send s response reply = record s { replies = s.replies ++ (response, reply) ∷ [] }

  unfoldable pub create_tcp_channels : TcpChannels w × TcpSocketState w
  create_tcp_channels =
      let (write_tx, write_rx) = w.tcp.channel tcp_channel_capacity in
      let (read_tx, read_rx) = w.tcp.channel tcp_channel_capacity in
      (
        record { write_tx = write_tx; read_rx = read_rx },
        record { write_rx = write_rx; read_tx = read_tx; pending_write = none },
      )

  unfoldable pub create_udp_channels : UdpChannels w × UdpSocketState w
  create_udp_channels =
      let (write_tx, write_rx) = w.udp.channel udp_channel_capacity in
      let (read_tx, read_rx) = w.udp.channel udp_channel_capacity in
      (
        record { write_tx = write_tx; read_rx = read_rx },
        record { write_rx = write_rx; read_tx = read_tx },
      )

  -- `allocate_ephemeral_port`: the counter is an `AtomicU16`, so it wraps.
  unfoldable pub allocate_ephemeral_port : Stack w → ℕ × Stack w
  allocate_ephemeral_port s =
      (s.ephemeral_port, record s { ephemeral_port = (s.ephemeral_port + 1) % 2 ^ 16 })
