-- ===== src/Socket/Split.antt =====
-- The two halves of a split `TcpStream` of src/socket/mod.rs, as they are read and written.
pub mod Parts
use tap_tunnel.Prelude.{
  ℕ, zero, suc, ◌-◌, Option, none, some, [], ◌∷◌, ◌++◌, true, false, length, drop, ◌==◌,
  if◌then◌else◌, ltb,
}
use tap_tunnel.Io.{IoResult, IoDone, ok, err, io_error, broken_pipe, would_block, write_zero}
use tap_tunnel.Bytes.{Bytes}
use tap_tunnel.Net.{SocketAddr}
use tap_tunnel.Channel.{Mpsc, sent, full, closed}
use tap_tunnel.Stack.State.{StackCommand, tcp_close}
use tap_tunnel.Socket.{Waits, TcpStream, deliver, Poll, ready, pending}

-- What the halves share.
pub record TcpStreamInner : Type 0 where
  pub handle : ℕ
  pub local_addr : SocketAddr
  pub peer_addr : SocketAddr

module _ (tcp : Mpsc Bytes) (commands : Mpsc StackCommand) where
  pub record OwnedReadHalf : Type 0 where
    pub inner : TcpStreamInner
    pub read_rx : tcp.Rx
    pub read_buf : Bytes

  pub record OwnedWriteHalf : Type 0 where
    pub inner : TcpStreamInner
    pub write_tx : tcp.Tx

  -- `into_split`
  unfoldable pub split : TcpStream tcp commands → OwnedReadHalf × OwnedWriteHalf
  split s =
      let inner : TcpStreamInner = record {
        handle = s.handle;
        local_addr = s.local_addr;
        peer_addr = s.peer_addr;
      } in
      (
        record { inner = inner; read_rx = s.read_rx; read_buf = s.read_buf },
        record { inner = inner; write_tx = s.write_tx },
      )

  unfoldable pub half_read : Waits tcp → OwnedReadHalf → ℕ → Bytes × OwnedReadHalf
  unfolding deliver
  half_read waits s n =
      let (out, kept) = deliver tcp commands s.read_buf n in
      let (got, rx) = waits.recv s.read_rx in
      if ltb 0 (length s.read_buf) then (out, record s { read_buf = kept }) else elim got [
        | some chunk ↦
            let (out', kept') = deliver tcp commands chunk n in
            (out', record s { read_rx = rx; read_buf = kept' })
        | none ↦ ([], record s { read_rx = rx })
      ]

  unfoldable pub half_poll_read : Waits tcp → OwnedReadHalf → ℕ → Poll Bytes × OwnedReadHalf
  unfolding deliver
  half_poll_read waits s n =
      let (out, kept) = deliver tcp commands s.read_buf n in
      let (got, rx) = waits.poll_recv s.read_rx in
      if ltb 0 (length s.read_buf) then (ready out, record s { read_buf = kept }) else elim got [
        | ready (some chunk) ↦
            let (out', kept') = deliver tcp commands chunk n in
            (ready out', record s { read_rx = rx; read_buf = kept' })
        | ready none ↦ (ready [], record s { read_rx = rx })
        | pending ↦ (pending, record s { read_rx = rx })
      ]

  unfoldable pub half_write : Waits tcp → OwnedWriteHalf → Bytes → IoResult ℕ × OwnedWriteHalf
  half_write waits s buf =
      let (there, tx) = waits.send s.write_tx buf in
      (
        if there then ok (length buf) else err (io_error broken_pipe "stack task gone"),
        record s { write_tx = tx },
      )

  -- `while written < buf.len()`, on what is left of `buf`; `none` is fuel that ran out.
  unfoldable pub write_all :
      Waits tcp → ℕ → OwnedWriteHalf → Bytes → Option (IoDone × OwnedWriteHalf)
  unfolding half_write
  write_all waits zero s buf = none
  write_all waits (suc fuel) s buf =
      let (r, s') = half_write waits s buf in
      if length buf == 0 then some (ok tt, s) else elim r [
        | err e ↦ some (err e, s')
        | ok n ↦ elim (n == 0) [
          | true ↦ some (err (io_error write_zero "failed to write whole buffer"), s')
          | false ↦ write_all waits fuel s' (drop n buf)
        ]
      ]

  unfoldable pub half_poll_write : OwnedWriteHalf → Bytes → Poll (IoResult ℕ) × OwnedWriteHalf
  half_poll_write s buf =
      let (r, tx) = tcp.try_send s.write_tx buf in
      (
        elim r [
          | sent ↦ ready (ok (length buf))
          | full ↦ ready (err (io_error would_block "channel full"))
          | closed ↦ ready (err (io_error broken_pipe "stack task gone"))
        ],
        record s { write_tx = tx },
      )

  -- `TcpStreamInner::close`, which `poll_shutdown` calls.
  unfoldable pub close_inner : TcpStreamInner → commands.Tx → commands.Tx
  close_inner s tx = (commands.try_send tx (tcp_close s.handle)).1
