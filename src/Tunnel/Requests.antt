-- ===== src/Tunnel/Requests.antt =====
-- The commands that src/lib.rs sends to the proxy, and the results of the API methods. A caller
-- waits on a `oneshot` channel: `tx` is its sender, which is a number, and `answer` what its
-- receiver yields, `none` when the sender was dropped. The lock on the map of callers is not
-- poisoned, as no code that holds it panics.
pub mod Correlation
use tap_tunnel.Prelude.{ℕ, Bool, true, false, Option, none, some, List, String, if◌then◌else◌}
use tap_tunnel.Io.{IoResult, IoDone, ok, err, io_error, broken_pipe, other, ◌>>=◌}
use tap_tunnel.Bytes.{Bytes}
use tap_tunnel.Map
use tap_tunnel.Map.{Map}
use tap_tunnel.Net.{IpAddr}
use tap_tunnel.Channel.{Outbox}
use tap_tunnel.Stats.{fetch_add_one}
use tap_tunnel.Protocol.{
  ProxyCommand, add_route, remove_route, get_iface_stats, ProxyResponse, ok_response,
  error_response, iface_stats, InterfaceStats, Json, encode_control,
}

-- `match &mut cmd`, which sets the id.
unfoldable pub with_id : ℕ → ProxyCommand → ProxyCommand
with_id id (add_route _ destination prefix_len) = add_route id destination prefix_len
with_id id (remove_route _ destination prefix_len) = remove_route id destination prefix_len
with_id id (get_iface_stats _) = get_iface_stats id

-- What the results of the three methods are made of.
unfoldable pub route_result : ProxyResponse → IoDone
route_result (ok_response id) = ok tt
route_result (error_response id error) = err (io_error other error)
route_result (iface_stats id interfaces) = err (io_error other "unexpected response")

unfoldable pub stats_result : ProxyResponse → IoResult (List (String × InterfaceStats))
stats_result (iface_stats id interfaces) = ok interfaces
stats_result (error_response id error) = err (io_error other error)
stats_result (ok_response id) = err (io_error other "unexpected response")

-- `rx.await`
unfoldable pub await_response : Option ProxyResponse → IoResult ProxyResponse
await_response (some resp) = ok resp
await_response none = err (io_error broken_pipe "proxy response lost")

module _ {C : Type 0} (control_channel : Outbox Bytes C) (serde : Json ProxyCommand) where
  pub record Requests : Type 0 where
    pub next_request_id : ℕ
    pub pending_proxy_responses : Map ℕ
    pub control_tx : C

  -- `fetch_add`, and `map.insert(id, tx)`
  unfoldable pub register : (tx : ℕ) → Requests → Requests
  register tx s = record s {
    next_request_id = fetch_add_one s.next_request_id;
    pending_proxy_responses = Map.insert s.next_request_id tx s.pending_proxy_responses;
  }

  -- `control_tx.send(msg).await`
  unfoldable pub send_control : Bytes → Requests → IoDone × Requests
  send_control msg s =
      let (accepted, c) = control_channel.send s.control_tx msg in
      (
        if accepted then ok tt else err (io_error broken_pipe "IPC writer gone"),
        record s { control_tx = c },
      )

  -- `send_proxy_command`, up to where it waits.
  unfoldable pub start_command : ProxyCommand → (tx : ℕ) → Requests → IoDone × Requests
  unfolding with_id register send_control
  start_command cmd tx s = elim (encode_control serde (with_id s.next_request_id cmd)) [
    | err e ↦ (err e, register tx s)
    | ok msg ↦ send_control msg (register tx s)
  ]

  unfoldable pub send_proxy_command :
      ProxyCommand
      → (tx : ℕ) (answer : Option ProxyResponse) → Requests
      → IoResult ProxyResponse × Requests
  unfolding start_command await_response
  send_proxy_command cmd tx answer s =
      let (started, s') = start_command cmd tx s in (started >>= λ _. await_response answer, s')

  unfoldable pub add_peer_route :
      (dest : IpAddr) (prefix_len tx : ℕ) (answer : Option ProxyResponse)
      → Requests
      → IoDone × Requests
  unfolding send_proxy_command route_result
  add_peer_route dest prefix_len tx answer s =
      let (resp, s') = send_proxy_command (add_route 0 dest prefix_len) tx answer s in
      (resp >>= route_result, s')

  unfoldable pub remove_peer_route :
      (dest : IpAddr) (prefix_len tx : ℕ) (answer : Option ProxyResponse)
      → Requests
      → IoDone × Requests
  unfolding send_proxy_command route_result
  remove_peer_route dest prefix_len tx answer s =
      let (resp, s') = send_proxy_command (remove_route 0 dest prefix_len) tx answer s in
      (resp >>= route_result, s')

  unfoldable pub get_iface_stats_of_peer :
      (tx : ℕ) (answer : Option ProxyResponse)
      → Requests
      → IoResult (List (String × InterfaceStats)) × Requests
  unfolding send_proxy_command stats_result
  get_iface_stats_of_peer tx answer s =
      let (resp, s') = send_proxy_command (get_iface_stats 0) tx answer s in
      (resp >>= stats_result, s')
