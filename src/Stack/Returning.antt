-- ===== src/Stack/Returning.antt =====
-- What follows the `select` in the body of the loop of `run_stack` in src/stack/mod.rs, from
-- `poll_write_channels` on, comes to its end.
use mathlib.Core.Path.{subst}
use tap_tunnel.Prelude.{
  ℕ, ◌<◌, ◌≡◌, refl, sym, ap, Bool, true, false, ◌||◌, some, [], All, arith, length,
}
use tap_tunnel.Channel.{ReceiverLaws, SenderLaws}
use tap_tunnel.Stack.Smoltcp.{SetLaws}
use tap_tunnel.Stack.State.{World, Stack, TcpSocketState, UdpSocketState, ingress_batch_size}
use tap_tunnel.Stack.DataPath.{
  process_tcp_write, process_tcp_read, process_udp_write, process_udp_read,
}
use tap_tunnel.Stack.Run.{
  poll_write_channels, poll_read_channels, poll_ingress, poll_pass, end_pass, Pass, continues,
  returns,
}
use tap_tunnel.Stack.Live.{IsLive, LiveParts-grow}
use tap_tunnel.Stack.Passing.{TcpEnds, UdpEnds}
use tap_tunnel.Stack.Rounds.Tcp.{process_tcp_write-TcpWritten, process_tcp_read-TcpEnded}
use tap_tunnel.Stack.Rounds.Udp.{process_udp_write-UdpWritten, process_udp_read-UdpEnded}
use tap_tunnel.Stack.Endings.{abort_pending-aborted}
use tap_tunnel.Stack.Polling.{
  poll_channels-Safe, Grows-egress, poll_ingress-Polled, process_if-Safe,
}

module _ (w : World) (laws : SetLaws w.net) (tcp_in : ReceiverLaws w.tcp)
    (tcp_out : SenderLaws w.tcp) (udp_in : ReceiverLaws w.udp) (udp_out : SenderLaws w.udp) where
  -- More fuel than a socket's two channels have messages and room.
  abbrev pub TcpFuelled : ℕ → TcpSocketState w → Type 0
  TcpFuelled fuel st =
      (length (tcp_in.queued st.write_rx) < fuel) × (tcp_out.room st.read_tx < fuel)

  abbrev pub UdpFuelled : ℕ → UdpSocketState w → Type 0
  UdpFuelled fuel st =
      (length (udp_in.queued st.write_rx) < fuel) × (udp_out.room st.read_tx < fuel)

  abbrev pub IsFuelled : ℕ → Stack w → Type 0
  IsFuelled fuel s =
      All (λ e. TcpFuelled fuel e.1) s.tcp_states × All (λ e. UdpFuelled fuel e.1) s.udp_states

  -- This part of a pass goes on to the next exactly while the connection is not lost; when it returns,
  -- nothing waits.
  abbrev pub EndsWell : (ipc_dead : Bool) → Pass w → Type 0
  EndsWell ipc_dead (continues d s) = (ipc_dead ≡ false) × IsLive w s
  EndsWell ipc_dead (returns s) = (ipc_dead ≡ true) × (s.pending ≡ []) × IsLive w s

  write_ends :
      (fuel : ℕ)
      → TcpEnds w laws
          (process_tcp_write w fuel)
          (TcpFuelled fuel)
          (λ st. tcp_out.room st.read_tx < fuel)
  write_ends fuel x st (few, few') =
      let (after, ran, kept) = process_tcp_write-TcpWritten w tcp_in fuel x st few in
      (after, ran, subst (λ tx. tcp_out.room tx < fuel) (sym kept) few')

  udp_write_ends :
      (fuel : ℕ)
      → UdpEnds w laws
          (process_udp_write w fuel)
          (UdpFuelled fuel)
          (λ st. udp_out.room st.read_tx < fuel)
  udp_write_ends fuel x st stats (few, few') =
      let (after, ran, kept) = process_udp_write-UdpWritten w udp_in fuel x st stats few in
      (after, ran, subst (λ tx. udp_out.room tx < fuel) (sym kept) few')

  read_ends :
      (fuel : ℕ)
      → TcpEnds w laws (process_tcp_read w fuel) (λ st. tcp_out.room st.read_tx < fuel) (λ st. Unit)
  read_ends fuel x st few =
      let (after, ran) = process_tcp_read-TcpEnded w tcp_out fuel x st few in (after, ran, tt)

  udp_read_ends :
      (fuel : ℕ)
      → UdpEnds w laws (process_udp_read w fuel) (λ st. udp_out.room st.read_tx < fuel) (λ st. Unit)
  udp_read_ends fuel x st stats few =
      let (after, ran) = process_udp_read-UdpEnded w udp_out fuel x st stats few in (after, ran, tt)

  end_pass-EndsWell :
      (ipc_dead : Bool) (d : w.Device) (s : Stack w)
      → IsLive w s
      → EndsWell ipc_dead (end_pass w ipc_dead d s)
  unfolding end_pass
  end_pass-EndsWell false d s v = (refl, v)
  end_pass-EndsWell true d s v =
      let same = abort_pending-aborted w s in
      (
        refl,
        ap (λ t. t.pending) same,
        subst (IsLive w) (sym same)
            (record { tcp = v.tcp; udp = v.udp; ops = tt; backlogs = v.backlogs }),
      )

  -- With more fuel than any socket's channels have messages and room, the part of the loop's body
  -- that follows the `select`, from `poll_write_channels` on, comes to its end: no loop over a channel
  -- runs on, and no handle in the stack's maps is without its socket, if each had one before and
  -- smoltcp's polling removes none. From there the loop goes on to the next pass exactly while the
  -- connection to the proxy is not lost; if it is lost, no operation waits any more.
  pub poll_pass-EndsWell :
      (fuel : ℕ) (ipc_dead : Bool) (d : w.Device) (s : Stack w)
      → IsLive w s
      → IsFuelled fuel s
      → (result : Pass w) × (poll_pass w fuel ipc_dead d s ≡ some result) × EndsWell ipc_dead result
  unfolding poll_pass poll_write_channels poll_read_channels
  poll_pass-EndsWell fuel ipc_dead d s v fuelled =
      let (s1, ran1, v1, (have_tcp, have_udp)) =
        poll_channels-Safe w laws (process_tcp_write w fuel) (process_udp_write w fuel)
          (TcpFuelled fuel) (λ st. tcp_out.room st.read_tx < fuel) (UdpFuelled fuel)
          (λ st. udp_out.room st.read_tx < fuel) s (write_ends fuel) (udp_write_ends fuel) fuelled
          v in
      let ingress = poll_ingress w ingress_batch_size false d s1 in
      let (v2, same_tcp, same_udp) = poll_ingress-Polled w laws ingress_batch_size false d s1 v1 in
      let s2 = ingress.2 in
      let egress = w.poll_egress s2.iface ingress.1 s2.sockets in
      let s3 = record s2 { iface = egress.1; sockets = egress.3 } in
      let (s4, ran4, v4, nothing) =
        poll_channels-Safe w laws (process_tcp_read w fuel) (process_udp_read w fuel)
          (λ st. tcp_out.room st.read_tx < fuel) (λ st. Unit) (λ st. udp_out.room st.read_tx < fuel)
          (λ st. Unit) s3 (read_ends fuel) (udp_read_ends fuel)
          (
            subst (All (λ e. tcp_out.room e.1.read_tx < fuel)) (sym same_tcp) have_tcp,
            subst (All (λ e. udp_out.room e.1.read_tx < fuel)) (sym same_udp) have_udp,
          )
          (LiveParts-grow w (Grows-egress w laws s2 ingress.1) v2) in
      let (s5, ran5, v5) = process_if-Safe w laws (ingress.0 || egress.0) s4 v4 in
      (
        end_pass w ipc_dead egress.2 s5,
        ground (arith, ran1, ran4, ran5),
        end_pass-EndsWell ipc_dead egress.2 s5 v5,
      )
