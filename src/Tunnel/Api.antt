-- ===== src/Tunnel/Api.antt =====
-- The methods of `Tunnel` in src/lib.rs that send a command to the stack task, `TcpListener` of
-- src/socket/mod.rs, and the configuration that `setup_stack_from_fd` gives to the stack. `tx` is the
-- sender of a `oneshot` channel, `answer` what its receiver yields, `none` when the sender was
-- dropped.
use tap_tunnel.Prelude.{ℕ, ◌%◌, Option, none, some, List, [], ◌∷◌, if◌then◌else◌}
use tap_tunnel.Io.{IoResult, IoDone, ok, err, io_error, broken_pipe, invalid_input, ◌>>=◌}
use tap_tunnel.Net.{IpAddr, SocketAddr}
use tap_tunnel.Channel.{Mpsc, Outbox}
use tap_tunnel.Stack.State.{
  World, StackCommand, StackConfig, tcp_connect, tcp_listen, tcp_accept, tcp_listener_close,
  udp_bind, add_ip, remove_ip, get_ips, TcpChannels, UdpChannels,
}
use tap_tunnel.Socket.{TcpStream, UdpSocket}
use tap_tunnel.Tunnel.{TapConfig}

-- The stack's configuration; the MAC that is missing is made of the id of the own process.
unfoldable pub stack_config : (process_id : ℕ) → TapConfig → IoResult StackConfig
stack_config process_id config = elim config.local_addr [
  | none ↦ err (io_error invalid_input "local_addr must be configured")
  | some (local_ip, local_prefix) ↦ elim config.peer_addr [
    | none ↦ err (io_error invalid_input "peer_addr missing")
    | some (gateway_ip, _) ↦ ok (record {
      mac = elim config.mac [
        | some mac ↦ mac
        | none ↦ 0x02 ∷ 0x00 ∷ 0x00 ∷ 0x00 ∷ 0x00 ∷ (process_id % 256) ∷ []
      ];
      ip = local_ip;
      prefix_len = local_prefix;
      gateway = gateway_ip;
    })
  ]
]

abbrev pub default_tcp_backlog : ℕ
default_tcp_backlog = 8

pub record TcpListener : Type 0 where
  pub handle : ℕ
  pub local_addr : SocketAddr

module _ (w : World) (stack_commands : Mpsc StackCommand) {C : Type 0}
    (commands : Outbox StackCommand C) where
  -- `rx.await.map_err(…)?`, on a response that is itself a result.
  unfoldable pub await_answer : {A : Type 0} → Option (IoResult A) → IoResult A
  await_answer (some result) = result
  await_answer none = err (io_error broken_pipe "stack task gone")

  -- A command is sent, and its response awaited.
  unfoldable pub request : {A : Type 0} → StackCommand → Option (IoResult A) → C → IoResult A × C
  unfolding await_answer
  request command answer c =
      let (there, c') = commands.send c command in
      (if there then await_answer answer else err (io_error broken_pipe "stack task gone"), c')

  -- `TcpStream::from_channels`
  unfoldable pub from_channels :
      ℕ × SocketAddr × SocketAddr × TcpChannels w → TcpStream w.tcp stack_commands
  from_channels (handle, local_addr, peer_addr, channels) = record {
    handle = handle;
    local_addr = local_addr;
    peer_addr = peer_addr;
    write_tx = channels.write_tx;
    read_rx = channels.read_rx;
    read_buf = [];
  }

  unfoldable pub udp_from_channels : ℕ × SocketAddr × UdpChannels w → UdpSocket w.udp stack_commands
  udp_from_channels (handle, local_addr, channels) = record {
    handle = handle;
    local_addr = local_addr;
    write_tx = channels.write_tx;
    read_rx = channels.read_rx;
  }

  unfoldable pub connect_tcp :
      (local_ip : Option IpAddr)
      → SocketAddr
      → (tx : ℕ) → Option (IoResult (ℕ × SocketAddr × SocketAddr × TcpChannels w))
      → C
      → IoResult (TcpStream w.tcp stack_commands) × C
  unfolding request from_channels
  connect_tcp local_ip addr tx answer c =
      let (result, c') = request (tcp_connect local_ip addr tx) answer c in
      (result >>= λ parts. ok (from_channels parts), c')

  unfoldable pub tcp_listen_with_backlog :
      SocketAddr
      → (backlog tx : ℕ) → Option (IoResult (ℕ × SocketAddr))
      → C
      → IoResult TcpListener × C
  unfolding request
  tcp_listen_with_backlog addr backlog tx answer c =
      let (result, c') = request (tcp_listen addr backlog tx) answer c in
      (
        result >>= λ (handle, local_addr). ok (record { handle = handle; local_addr = local_addr }),
        c',
      )

  unfoldable pub listen_default :
      SocketAddr → (tx : ℕ) → Option (IoResult (ℕ × SocketAddr)) → C → IoResult TcpListener × C
  unfolding tcp_listen_with_backlog
  listen_default addr tx answer c = tcp_listen_with_backlog addr default_tcp_backlog tx answer c

  unfoldable pub bind_udp :
      SocketAddr
      → (tx : ℕ) → Option (IoResult (ℕ × SocketAddr × UdpChannels w))
      → C
      → IoResult (UdpSocket w.udp stack_commands) × C
  unfolding request udp_from_channels
  bind_udp addr tx answer c =
      let (result, c') = request (udp_bind addr tx) answer c in
      (result >>= λ parts. ok (udp_from_channels parts), c')

  unfoldable pub add_local_ip : IpAddr → (prefix_len tx : ℕ) → Option IoDone → C → IoDone × C
  unfolding request
  add_local_ip ip prefix_len tx answer c = request (add_ip ip prefix_len tx) answer c

  unfoldable pub remove_local_ip : IpAddr → (tx : ℕ) → Option IoDone → C → IoDone × C
  unfolding request
  remove_local_ip ip tx answer c = request (remove_ip ip tx) answer c

  -- The response is the list itself.
  unfoldable pub local_ips :
      (tx : ℕ) → Option (List (IpAddr × ℕ)) → C → IoResult (List (IpAddr × ℕ)) × C
  unfolding request
  local_ips tx answer c =
      request (get_ips tx) (elim answer [ some addrs ↦ some (ok addrs) | none ↦ none ]) c

  unfoldable pub accept :
      TcpListener
      → (tx : ℕ) → Option (IoResult (ℕ × SocketAddr × SocketAddr × TcpChannels w))
      → C
      → IoResult (TcpStream w.tcp stack_commands × SocketAddr) × C
  unfolding request from_channels
  accept listener tx answer c =
      let (result, c') = request (tcp_accept listener.handle tx) answer c in
      (
        result >>= λ (handle, local_addr, peer_addr, channels).
            ok (from_channels (handle, local_addr, peer_addr, channels), peer_addr),
        c',
      )

  -- `TcpListener::close`: the result of `try_send` is ignored.
  unfoldable pub close_listener : TcpListener → stack_commands.Tx → stack_commands.Tx
  close_listener listener tx = (stack_commands.try_send tx (tcp_listener_close listener.handle)).1
