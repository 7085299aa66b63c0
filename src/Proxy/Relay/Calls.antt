-- ===== src/Proxy/Relay/Calls.antt =====
-- A command, from the caller in src/lib.rs to the proxy and back to the caller.
use tap_tunnel.Prelude.{
  ℕ, ◌≡◌, refl, ap, ◌∙◌, true, none, some, [], ◌∷◌, ◌++◌, arith, String, ◌==◌, if◌then◌else◌,
}
use tap_tunnel.Io.{ok}
use tap_tunnel.Bytes.{Bytes}
use tap_tunnel.Map
use tap_tunnel.Map.{Map, get-remove, get-insert}
use tap_tunnel.Channel.{Mpsc, Outbox}
use tap_tunnel.Protocol.{
  Json, ProxyCommand, ProxyResponse, response_id, add_route, remove_route, get_iface_stats,
  decode_message, encode_control,
}
use tap_tunnel.Protocol.Codec.{decode-encode_control}
use tap_tunnel.Protocol.Framing.{Write}
use tap_tunnel.Tunnel.Requests.{with_id, Requests, register, send_control, start_command}
use tap_tunnel.Tunnel.Reader.{IpcReader, dispatch, handle_message, control_received}
use tap_tunnel.Proxy.{Strings, Routes, command_id, handle_proxy_command}
use tap_tunnel.Proxy.Answers.{response_id-handle_proxy_command}
use tap_tunnel.Proxy.Relay.{goes_on, Relay, relay_message, respond, command_received}

command_id-with_id : (id : ℕ) (cmd : ProxyCommand) → command_id (with_id id cmd) ≡ id
unfolding with_id
command_id-with_id id (add_route _ d p) = refl
command_id-with_id id (remove_route _ d p) = refl
command_id-with_id id (get_iface_stats _) = refl

-- The reader task hands a response to the caller that waits for its id.
dispatch-waiting :
    (frames : Mpsc Bytes) (resp : ProxyResponse) (tx : ℕ) (r : IpcReader frames)
    → Map.get (response_id resp) r.pending_proxy_responses ≡ some tx
    → dispatch frames resp r ≡ record r {
      pending_proxy_responses = Map.remove (response_id resp) r.pending_proxy_responses;
      answered = r.answered ++ (tx, resp) ∷ [];
    }
unfolding dispatch
dispatch-waiting frames resp tx r e = ground (arith, e)

handle_message-response :
    (frames : Mpsc Bytes) (serde : Json ProxyResponse) (resp : ProxyResponse) (msg : Bytes)
    (r : IpcReader frames)
    → encode_control serde resp ≡ ok msg
    → handle_message frames serde (decode_message msg) r ≡ (true, dispatch frames resp r)
unfolding handle_message control_received
handle_message-response frames serde resp msg r e =
    let (payload, decoded, read) = decode-encode_control serde resp msg e in
    ground (arith, decoded, read)

module _ {K T C D : Type 0} (std : Strings) (kernel : Routes K) (tap : Write T)
    (responses : Outbox Bytes C) (requests : Outbox Bytes D) (commands : Json ProxyCommand)
    (answers : Json ProxyResponse) (iface_name : String) (max_frame_size : ℕ)
    (frames : Mpsc Bytes) where
  relay-command :
      (cmd : ProxyCommand) (msg resp_msg : Bytes)
      (p : Relay std kernel tap responses commands answers iface_name max_frame_size)
      → encode_control commands cmd ≡ ok msg
      → encode_control answers (handle_proxy_command std kernel cmd iface_name p.routes).0
        ≡ ok resp_msg
      → relay_message std kernel tap responses commands answers iface_name max_frame_size
          (decode_message msg)
          p
        ≡ goes_on (record p {
          routes = (handle_proxy_command std kernel cmd iface_name p.routes).1;
          response_tx = (responses.send p.response_tx resp_msg).1;
        })
  unfolding relay_message command_received respond
  relay-command cmd msg resp_msg p e e' =
      let (payload, decoded, read) = decode-encode_control commands cmd msg e in
      ground (arith, decoded, read, e')

  start_command-sends :
      (cmd : ProxyCommand) (tx : ℕ) (msg : Bytes) (q : Requests requests commands)
      → encode_control commands (with_id q.next_request_id cmd) ≡ ok msg
      → ((start_command requests commands cmd tx q).1.control_tx
          ≡ (requests.send q.control_tx msg).1)
        × ((start_command requests commands cmd tx q).1.pending_proxy_responses
            ≡ Map.insert q.next_request_id tx q.pending_proxy_responses)
  unfolding start_command send_control register
  start_command-sends cmd tx msg q e = (ground (arith, e), ground (arith, e))

  get-remove-insert :
      (k j tx : ℕ) (m : Map ℕ)
      → Map.get j (Map.remove k (Map.insert k tx m)) ≡ (if k == j then none else Map.get j m)
  get-remove-insert k j tx m =
      ground (arith, get-remove k j (Map.insert k tx m), get-insert k j tx m)

  -- A command that a caller starts is sent with the next id. When the proxy reads what was sent, it
  -- carries the command out and goes on, and sends a response with that id. When the
  -- reader task reads that response, it goes on, answers exactly this caller, with this response,
  -- and forgets the id, while every other id keeps its caller. The command and the response must
  -- have a JSON form.
  pub start_command-answered :
      (cmd : ProxyCommand) (tx j : ℕ) (msg resp_msg : Bytes) (q : Requests requests commands)
      (p : Relay std kernel tap responses commands answers iface_name max_frame_size)
      (r : IpcReader frames)
      → encode_control commands (with_id q.next_request_id cmd) ≡ ok msg
      → encode_control answers
          (handle_proxy_command std kernel (with_id q.next_request_id cmd) iface_name p.routes).0
        ≡ ok resp_msg
      → r.pending_proxy_responses
        ≡ (start_command requests commands cmd tx q).1.pending_proxy_responses
      → ((start_command requests commands cmd tx q).1.control_tx
          ≡ (requests.send q.control_tx msg).1)
        × (relay_message std kernel tap responses commands answers iface_name max_frame_size
              (decode_message msg)
              p
            ≡ goes_on (record p {
              routes =
                  (handle_proxy_command std kernel
                    (with_id q.next_request_id cmd)
                    iface_name
                    p.routes).1;
              response_tx = (responses.send p.response_tx resp_msg).1;
            }))
        × ((handle_message frames answers (decode_message resp_msg) r).0 ≡ true)
        × ((handle_message frames answers (decode_message resp_msg) r).1.answered
            ≡ r.answered
              ++ (
                tx,
                (handle_proxy_command std kernel
                    (with_id q.next_request_id cmd)
                    iface_name
                    p.routes).0,
              )
                ∷ [])
        × (Map.get j
              (handle_message frames answers (decode_message resp_msg) r).1.pending_proxy_responses
            ≡ (if q.next_request_id == j then none else Map.get j q.pending_proxy_responses))
  start_command-answered cmd tx j msg resp_msg q p r e e' same =
      let resp =
        (handle_proxy_command std kernel (with_id q.next_request_id cmd) iface_name p.routes).0 in
      let (sends, registers) = start_command-sends cmd tx msg q e in
      let pending = same ∙ registers in
      let id : response_id resp ≡ q.next_request_id =
        response_id-handle_proxy_command std kernel (with_id q.next_request_id cmd) iface_name
          p.routes
        ∙ command_id-with_id q.next_request_id cmd in
      let waits : Map.get (response_id resp) r.pending_proxy_responses ≡ some tx = ground (
        arith,
        id,
        pending,
        get-insert q.next_request_id q.next_request_id tx q.pending_proxy_responses,
      ) in
      let handled = handle_message-response frames answers resp resp_msg r e' in
      let dispatched = dispatch-waiting frames resp tx r waits in
      (
        sends,
        relay-command (with_id q.next_request_id cmd) msg resp_msg p e e',
        ap (λ x. x.0) handled,
        ap (λ x. x.1.answered) handled ∙ ap (λ x. x.answered) dispatched,
        ap (λ x. Map.get j x.1.pending_proxy_responses) handled
            ∙ ap (λ x. Map.get j x.pending_proxy_responses) dispatched
            ∙ ground (
              arith,
              id,
              pending,
              get-remove-insert q.next_request_id j tx q.pending_proxy_responses,
            ),
      )
