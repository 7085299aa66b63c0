-- ===== src/Tunnel/Reader.antt =====
-- The task of src/lib.rs that reads what the proxy sends (`setup_stack_from_fd`): frames go to the
-- device's channel, responses to the callers that wait for them. A caller waits on a `oneshot`
-- sender, which is a number; what is sent on it is recorded in `answered`.
pub mod Serve
use tap_tunnel.Prelude.{ℕ, zero, suc, Bool, true, false, Option, none, some, List, [], ◌∷◌, ◌++◌}
use tap_tunnel.Io.{IoResult, ok, err, ◌>>=◌}
use tap_tunnel.Bytes.{Bytes, from_be}
use tap_tunnel.Map
use tap_tunnel.Map.{Map}
use tap_tunnel.Channel.{Mpsc, TrySend, sent, full, closed}
use tap_tunnel.Stats.{TunnelStats, fetch_add_one}
use tap_tunnel.Protocol.{
  Message, control, frame, ProxyResponse, response_id, Json, decode_control, decode_message,
}
use tap_tunnel.Protocol.Framing.{Read}

module _ (frames : Mpsc Bytes) where
  pub record IpcReader : Type 0 where
    pub frame_tx : frames.Tx
    pub stats : TunnelStats
    pub pending_proxy_responses : Map ℕ
    pub answered : List (ℕ × ProxyResponse)
    pub ipc_dead : Bool

  -- `map.remove(&resp.id())`, and `tx.send(resp)` to the caller that was there.
  unfoldable pub dispatch : ProxyResponse → IpcReader → IpcReader
  unfolding response_id
  dispatch resp s = elim (Map.get (response_id resp) s.pending_proxy_responses) [
    | none ↦ s
    | some tx ↦ record s {
      pending_proxy_responses = Map.remove (response_id resp) s.pending_proxy_responses;
      answered = s.answered ++ (tx, resp) ∷ [];
    }
  ]

  -- After `frame_tx.try_send(frame)`: whether the loop goes on.
  unfoldable pub frame_sent : TrySend × frames.Tx → IpcReader → Bool × IpcReader
  frame_sent (sent, tx) s = (true, record s { frame_tx = tx })
  frame_sent (full, tx) s = (
    true,
    record s {
      frame_tx = tx;
      stats = record s.stats { ipc_rx_dropped = fetch_add_one s.stats.ipc_rx_dropped };
    },
  )
  frame_sent (closed, tx) s = (false, record s { frame_tx = tx })

  unfoldable pub control_received : IoResult ProxyResponse → IpcReader → IpcReader
  unfolding dispatch
  control_received (ok resp) s = dispatch resp s
  control_received (err e) s = s

  -- `match decode_message(…)`: whether the loop goes on, and the state.
  unfoldable pub handle_message :
      Json ProxyResponse → IoResult Message → IpcReader → Bool × IpcReader
  unfolding frame_sent control_received
  handle_message serde (ok (frame f)) s =
      frame_sent (frames.try_send s.frame_tx f) (record s {
        stats = record s.stats { ipc_rx_frames = fetch_add_one s.stats.ipc_rx_frames };
      })
  handle_message serde (ok (control payload)) s =
      (true, control_received (decode_control serde payload) s)
  handle_message serde (err e) s = (true, s)

  -- The length prefix, and the body.
  unfoldable pub read_message : {R : Type 0} ⦃r : Read R⦄ → R → IoResult (Bytes × R)
  read_message ⦃r⦄ reader = do
    (len_buf, reader') ← r.read_exact reader 4
    r.read_exact reader' (from_be len_buf)

  -- The loop; `none` is fuel that ran out.
  unfoldable pub reader_loop :
      {R : Type 0} ⦃r : Read R⦄ → Json ProxyResponse → ℕ → R → IpcReader → Option IpcReader
  reader_loop serde zero reader s = none
  reader_loop serde (suc fuel) reader s = elim (read_message reader) [
    | err e ↦ some (record s { ipc_dead = true })
    | ok (body, reader') ↦
        let (go_on, s') = handle_message serde (decode_message body) s in
        elim go_on [ true ↦ reader_loop serde fuel reader' s' | false ↦ some s' ]
  ]
