-- ===== src/Proxy/Relay/Tests.antt =====
-- The theorems on the relay of proxy/src/main.rs, at a device that logs its frames.
use tap_tunnel.Prelude.{ℕ, suc, ◌≡◌, refl, [], ◌∷◌, ◌++◌, none, some, true, false, List, arith}
use tap_tunnel.Io.{ok}
use tap_tunnel.Bytes.{Bytes}
use tap_tunnel.Map
use tap_tunnel.Channel.{Outbox}
use tap_tunnel.Protocol.{
  frame, control, ok_response, add_route, decode_message, encode_control, Message,
}
use tap_tunnel.Protocol.Framing.{Write, read_bytes}
use tap_tunnel.Protocol.Streams.{framed_all}
use tap_tunnel.Protocol.Toy.{toy_commands, toy_responses}
use tap_tunnel.Stack.Fifo.{fifo, fifo_receiver}
use tap_tunnel.Proxy.Relay.Outbound.{BufWriter, Outbound, tap_frame, response, outbound_pass}
use tap_tunnel.Proxy.Relay.Outbound.Batch.{BufWriterLaws, Batched, outbound_pass-Batched}
use tap_tunnel.Stats.{new_shared}
use tap_tunnel.Tunnel.Requests.{Requests, start_command, register, send_control, with_id}
use tap_tunnel.Tunnel.Reader.{IpcReader, handle_message}
use tap_tunnel.Proxy.{Routes, handle_proxy_command, response_to}
use tap_tunnel.Proxy.Tests.{strings, ten}
use tap_tunnel.Proxy.Relay.{Relay, relay_loop, relay_message, goes_on}
use tap_tunnel.Proxy.Relay.Messages.{relay_all, relay_loop-relay_all}
use tap_tunnel.Proxy.Relay.Calls.{start_command-answered}
use tap_tunnel.Proxy.Relay.Delivery.{TapLaws, Delivers, relay_all-Delivers}

abbrev log : Write (List Bytes)
log = record { write_all = λ t f. ok (t ++ f ∷ []) }

log-written : (t t' : List Bytes) (f : Bytes) → log.write_all t f ≡ ok t' → t' ≡ t ++ f ∷ []
log-written t t' f e = cc

abbrev log_laws : TapLaws log
log_laws = record { written = λ t. t; write_all-written = log-written }

abbrev outbox : Outbox Bytes (List Bytes)
outbox = record { send = λ c a. (true, c ++ a ∷ []) }

-- A kernel that takes every route, and counts the calls.
abbrev kernel : Routes ℕ
kernel = record {
  add_route = λ k iface ip n. (none, suc k);
  remove_route = λ k iface ip n. (none, suc k);
  proc_net_dev = λ k. ok "";
}

abbrev relay : Relay strings kernel log outbox toy_commands toy_responses "tap0" 4
relay = record { tap_writer = []; routes = 0; response_tx = [] }

-- Two frames that are put into one message, which the buffer of 16 bytes does not hold.
abbrev hidden : List Message
hidden = frame (6 ∷ 6 ∷ 6 ∷ 6 ∷ 6 ∷ 6 ∷ []) ∷ frame (7 ∷ 7 ∷ 7 ∷ 7 ∷ 7 ∷ 7 ∷ []) ∷ []

abbrev messages : List Message
messages = frame (9 ∷ 8 ∷ []) ∷ control (3 ∷ []) ∷ frame (7 ∷ []) ∷ []

relay_loop-relay_all_example :
    relay_loop strings kernel log outbox toy_commands toy_responses "tap0" 4 4
      (framed_all ((1 ∷ 9 ∷ 8 ∷ []) ∷ (0 ∷ 3 ∷ []) ∷ (1 ∷ 7 ∷ []) ∷ []) ++ 0 ∷ [])
      relay
    ≡ some (relay_all strings kernel log outbox toy_commands toy_responses "tap0" 4 messages relay)
relay_loop-relay_all_example =
    relay_loop-relay_all strings kernel log outbox toy_commands toy_responses "tap0" 4 messages
      (0 ∷ []) 4 relay (omega arith) (omega arith, (omega arith, (omega arith, tt))) (omega arith)
      (omega arith)

relay_all-Delivers_example :
    Delivers strings kernel log log_laws outbox toy_commands toy_responses "tap0" 4
      ((9 ∷ 8 ∷ []) ∷ (7 ∷ []) ∷ [])
      relay
      (relay_all strings kernel log outbox toy_commands toy_responses "tap0" 4
        (frame (9 ∷ 8 ∷ []) ∷ frame (7 ∷ []) ∷ [])
        relay)
relay_all-Delivers_example =
    relay_all-Delivers strings kernel log log_laws outbox toy_commands toy_responses "tap0" 4
      (frame (9 ∷ 8 ∷ []) ∷ frame (7 ∷ []) ∷ []) relay

abbrev requests : Requests outbox toy_commands
requests = record { next_request_id = 7; pending_proxy_responses = (6, 1) ∷ []; control_tx = [] }

abbrev reader : IpcReader (fifo Bytes)
reader = record {
  frame_tx = (8, []);
  stats = new_shared;
  pending_proxy_responses = (7, 2) ∷ (6, 1) ∷ [];
  answered = [];
  ipc_dead = false;
}

start_command-answered_example :
    ((start_command outbox toy_commands (add_route 0 ten 24) 2 requests).1.control_tx
      ≡ (0 ∷ 7 ∷ 24 ∷ 10 ∷ 0 ∷ 0 ∷ 1 ∷ []) ∷ [])
    × (relay_message strings kernel log outbox toy_commands toy_responses "tap0" 4
          (decode_message (0 ∷ 7 ∷ 24 ∷ 10 ∷ 0 ∷ 0 ∷ 1 ∷ []))
          relay
        ≡ goes_on (record { tap_writer = []; routes = 1; response_tx = (0 ∷ 7 ∷ []) ∷ [] }))
    × ((handle_message (fifo Bytes) toy_responses (decode_message (0 ∷ 7 ∷ [])) reader).0 ≡ true)
    × ((handle_message (fifo Bytes) toy_responses (decode_message (0 ∷ 7 ∷ [])) reader).1.answered
        ≡ (2, ok_response 7) ∷ [])
    × (Map.get 6
          (handle_message
            (fifo Bytes)
            toy_responses
            (decode_message (0 ∷ 7 ∷ []))
            reader).1.pending_proxy_responses
        ≡ some 1)
unfolding handle_proxy_command response_to with_id encode_control start_command register
    send_control Map.insert Map.remove Map.get
start_command-answered_example =
    start_command-answered strings kernel log outbox outbox toy_commands toy_responses "tap0" 4
      (fifo Bytes) (add_route 0 ten 24) 2 6 (0 ∷ 7 ∷ 24 ∷ 10 ∷ 0 ∷ 0 ∷ 1 ∷ []) (0 ∷ 7 ∷ []) requests
      relay reader refl refl refl

-- A socket that takes everything.
-- What was written, and what was flushed of it.
abbrev open_socket : BufWriter (Bytes × Bytes)
open_socket = record { write_all = λ w bs. ok (w.0 ++ bs, w.1); flush = λ w. ok (w.0, w.0) }

open_socket-write_all :
    (w w' : Bytes × Bytes) (bs : Bytes) → open_socket.write_all w bs ≡ ok w' → w'.0 ≡ w.0 ++ bs
open_socket-write_all w w' bs e = cc

open_socket-flush : (w w' : Bytes × Bytes) → open_socket.flush w ≡ ok w' → w'.1 ≡ w.0
open_socket-flush w w' e = cc

abbrev open_socket_laws : BufWriterLaws open_socket
open_socket_laws = record {
  taken = λ w. w.0;
  passed = λ w. w.1;
  write_all-taken = open_socket-write_all;
  flush-passed = open_socket-flush;
}

abbrev outbound : Outbound open_socket (fifo Bytes) (fifo Bytes)
outbound = record {
  tap_frame_rx = (1 ∷ 5 ∷ []) ∷ [];
  response_rx = (0 ∷ 7 ∷ []) ∷ [];
  writer = ([], []);
}

outbound_pass-Batched_example :
    Batched open_socket open_socket_laws
      (fifo Bytes)
      (fifo Bytes)
      (fifo_receiver Bytes)
      (fifo_receiver Bytes)
      (outbound_pass open_socket
        (fifo Bytes)
        (fifo Bytes)
        2
        (tap_frame (some (1 ∷ 9 ∷ [])))
        outbound)
      ([], [])
      ((1 ∷ 9 ∷ []) ∷ (1 ∷ 5 ∷ []) ∷ (0 ∷ 7 ∷ []) ∷ [])
    × Batched open_socket open_socket_laws
        (fifo Bytes)
        (fifo Bytes)
        (fifo_receiver Bytes)
        (fifo_receiver Bytes)
        (outbound_pass open_socket (fifo Bytes) (fifo Bytes) 2 (response (1 ∷ 9 ∷ [])) outbound)
        ([], [])
        ((1 ∷ 9 ∷ []) ∷ (1 ∷ 5 ∷ []) ∷ (0 ∷ 7 ∷ []) ∷ [])
outbound_pass-Batched_example =
    outbound_pass-Batched open_socket open_socket_laws (fifo Bytes) (fifo Bytes)
      (fifo_receiver Bytes) (fifo_receiver Bytes) 2 (1 ∷ 9 ∷ []) outbound (omega arith)
      (omega arith)
