-- ===== src/Socket.antt =====
-- src/socket/mod.rs: the application's ends of the channels. A wait for a channel is modelled by
-- what it ends with; all handles share a `Notify` that carries no data.
pub mod Reads
pub mod Halves
pub mod Split
mod Tests
use tap_tunnel.Prelude.{
  ℕ, zero, suc, ◌+◌, ◌-◌, ◌≤◌, ◌<◌, ◌≡◌, refl, Bool, true, false, Option, none, some, List, [], ◌∷◌,
  ◌++◌, min, length, take, drop, if◌then◌else◌, ltb, ◌==◌,
}
use tap_tunnel.Io.{IoResult, ok, err, io_error, broken_pipe, would_block}
use tap_tunnel.Bytes.{Bytes}
use tap_tunnel.Net.{SocketAddr}
use tap_tunnel.Channel.{Mpsc, TrySend, sent, full, closed}
use tap_tunnel.Stack.State.{StackCommand, tcp_close, udp_close}

-- `std::task::Poll`
pub data Poll (A : Type 0) : Type 0 where
  ready : A → Poll A
  pending : Poll A

-- A tokio receiver and sender as an application waits on them: `recv` ends with a message, or with
-- `none` when every sender is gone; `send` ends with whether the receiver was there.
pub record Waits {A : Type 0} (ch : Mpsc A) : Type 0 where
  pub recv : ch.Rx → Option A × ch.Rx
  pub poll_recv : ch.Rx → Poll (Option A) × ch.Rx
  pub send : ch.Tx → A → Bool × ch.Tx

module _ (tcp : Mpsc Bytes) (commands : Mpsc StackCommand) where
  pub record TcpStream : Type 0 where
    pub handle : ℕ
    pub local_addr : SocketAddr
    pub peer_addr : SocketAddr
    pub write_tx : tcp.Tx
    pub read_rx : tcp.Rx
    pub read_buf : Bytes

  -- `len` bytes go to the caller's buffer of `n`, the rest of the chunk to `read_buf`, which is
  -- empty.
  unfoldable pub deliver : Bytes → ℕ → Bytes × Bytes
  deliver chunk n = (take (min (length chunk) n) chunk, drop (min (length chunk) n) chunk)

  -- What a `read` into a buffer of `n` bytes writes there.
  unfoldable pub read : Waits tcp → TcpStream → ℕ → Bytes × TcpStream
  unfolding deliver
  read waits s n =
      let (out, kept) = deliver s.read_buf n in
      let (got, rx) = waits.recv s.read_rx in
      if ltb 0 (length s.read_buf) then (out, record s { read_buf = kept }) else elim got [
        | some chunk ↦
            let (out', kept') = deliver chunk n in
            (out', record s { read_rx = rx; read_buf = kept' })
        | none ↦ ([], record s { read_rx = rx })
      ]

  -- `poll_read`, into a buffer with `n` bytes free.
  unfoldable pub poll_read : Waits tcp → TcpStream → ℕ → Poll Bytes × TcpStream
  unfolding deliver
  poll_read waits s n =
      let (out, kept) = deliver s.read_buf n in
      let (got, rx) = waits.poll_recv s.read_rx in
      if ltb 0 (length s.read_buf) then (ready out, record s { read_buf = kept }) else elim got [
        | ready (some chunk) ↦
            let (out', kept') = deliver chunk n in
            (ready out', record s { read_rx = rx; read_buf = kept' })
        | ready none ↦ (ready [], record s { read_rx = rx })
        | pending ↦ (pending, record s { read_rx = rx })
      ]

  unfoldable pub write : Waits tcp → TcpStream → Bytes → IoResult ℕ × TcpStream
  write waits s buf =
      let (there, tx) = waits.send s.write_tx buf in
      (
        if there then ok (length buf) else err (io_error broken_pipe "stack task gone"),
        record s { write_tx = tx },
      )

  unfoldable pub poll_write : TcpStream → Bytes → Poll (IoResult ℕ) × TcpStream
  poll_write s buf =
      let (r, tx) = tcp.try_send s.write_tx buf in
      (
        elim r [
          | sent ↦ ready (ok (length buf))
          | full ↦ ready (err (io_error would_block "channel full"))
          | closed ↦ ready (err (io_error broken_pipe "stack task gone"))
        ],
        record s { write_tx = tx },
      )

  -- `close`, and `Drop`, which calls it: the result of `try_send` is ignored.
  unfoldable pub close : TcpStream → commands.Tx → commands.Tx
  close s tx = (commands.try_send tx (tcp_close s.handle)).1

module _ (udp : Mpsc (Bytes × SocketAddr)) (commands : Mpsc StackCommand) where
  pub record UdpSocket : Type 0 where
    pub handle : ℕ
    pub local_addr : SocketAddr
    pub write_tx : udp.Tx
    pub read_rx : udp.Rx

  unfoldable pub send_to : Waits udp → UdpSocket → Bytes → SocketAddr → IoResult ℕ × UdpSocket
  send_to waits s buf addr =
      let (there, tx) = waits.send s.write_tx (buf, addr) in
      (
        if there then ok (length buf) else err (io_error broken_pipe "stack task gone"),
        record s { write_tx = tx },
      )

  -- What goes to a buffer of `n` bytes, and where it came from.
  unfoldable pub recv_from : Waits udp → UdpSocket → ℕ → IoResult (Bytes × SocketAddr) × UdpSocket
  recv_from waits s n =
      let (got, rx) = waits.recv s.read_rx in
      (
        elim got [
          | some (bytes, addr) ↦ ok (take (min (length bytes) n) bytes, addr)
          | none ↦ err (io_error broken_pipe "socket closed")
        ],
        record s { read_rx = rx },
      )

  unfoldable pub close_udp : UdpSocket → commands.Tx → commands.Tx
  close_udp s tx = (commands.try_send tx (udp_close s.handle)).1
