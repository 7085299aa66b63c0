-- ===== src/Tunnel/Tests.antt =====
-- The theorems on src/lib.rs, at a tunnel with a child and two tasks, and at channels that are lists.
use tap_tunnel.Prelude.{
  ℕ, zero, suc, ◌-◌, ◌≤◌, ◌<◌, ◌==◌, length, ◌≡◌, refl, Bool, true, false, none, some, List, [],
  ◌∷◌, ◌++◌, map, arith, inl, ◌⊎◌,
}
use tap_tunnel.Bytes.{Bytes}
use tap_tunnel.Io.{IoResult, IoError, ok, err, io_error, would_block}
use tap_tunnel.Map
use tap_tunnel.Map.{Map}
use tap_tunnel.Channel.{Outbox}
use tap_tunnel.Stats.{new_shared}
use tap_tunnel.Protocol.{Message, frame, control, encode_frame, get_iface_stats}
use tap_tunnel.Protocol.Codec.{encoded}
use tap_tunnel.Protocol.Framing.{read_bytes}
use tap_tunnel.Protocol.Streams.{framed_all}
use tap_tunnel.Protocol.Toy.{toy_responses, toy_commands}
use tap_tunnel.Stack.Fifo.{fifo, fifo_receiver}
use tap_tunnel.Tunnel.Reader.{IpcReader, reader_loop}
use tap_tunnel.Tunnel.Reader.Serve.{serve, reader_loop-serve}
use tap_tunnel.Tunnel.Writer.{Sink, IpcWriter, frame_ready, writer_pass}
use tap_tunnel.Tunnel.Writer.Batch.{SinkLaws, PassesOr}
use tap_tunnel.Tunnel.Writer.Pass.{writer_pass-PassesOr}
use tap_tunnel.Tunnel.Launch.{Child, read_prefix_loop}
use tap_tunnel.Tunnel.Launch.Waiting.{ChildLaws, Waited, read_prefix_loop-Waited}
use tap_tunnel.Tunnel.Requests.{Requests, start_command}
use tap_tunnel.Tunnel.Requests.Correlation.{IsIssued, start_command-IsIssued}
use tap_tunnel.Tunnel.Close.{
  TunnelInner, close_each, close_each-once, kill_child, wait_child, abort_task,
}

abbrev tunnel : TunnelInner
tunnel = record {
  closed = false;
  ipc_dead = false;
  proxy_child = some 4711;
  task_handles = 1 ∷ 2 ∷ [];
  actions = [];
}

close_each-once_example : close_each 3 tunnel ≡ record {
  closed = true;
  ipc_dead = true;
  proxy_child = none;
  task_handles = [];
  actions = kill_child 4711 ∷ wait_child 4711 ∷ abort_task 1 ∷ abort_task 2 ∷ [];
}
close_each-once_example = close_each-once 2 tunnel

abbrev reader : IpcReader (fifo Bytes)
reader = record {
  frame_tx = (1, []);
  stats = new_shared;
  pending_proxy_responses = (7, 2) ∷ [];
  answered = [];
  ipc_dead = false;
}

-- Two frames for a channel with room for one, and a response.
abbrev messages : List Message
messages = frame (9 ∷ []) ∷ control (7 ∷ []) ∷ frame (8 ∷ []) ∷ []

reader_loop-serve_example :
    reader_loop (fifo Bytes) toy_responses 4 (framed_all (map encoded messages) ++ 0 ∷ []) reader
    ≡ some (serve (fifo Bytes) toy_responses messages reader)
reader_loop-serve_example =
    reader_loop-serve (fifo Bytes) toy_responses messages (0 ∷ []) 4 reader
      (omega arith, (omega arith, (omega arith, tt))) (omega arith) (omega arith)

-- A connection that takes everything: what it has taken, and what has been flushed of it.
abbrev socket : Sink (Bytes × Bytes)
socket = record { write_all = λ w bs. (true, (w.0 ++ bs, w.1)); flush = λ w. (true, (w.0, w.0)) }

abbrev socket_laws : SinkLaws socket
socket_laws = record {
  taken = λ w. w.0;
  passed = λ w. w.1;
  write_all-taken = λ w bs good. refl;
  flush-passed = λ w good. refl;
}

abbrev writer : IpcWriter socket (fifo Bytes) (fifo Bytes)
writer = record {
  writer = ([], []);
  frame_rx = (5 ∷ []) ∷ (6 ∷ []) ∷ [];
  control_rx = (0 ∷ 4 ∷ []) ∷ [];
  stats = new_shared;
  ipc_dead = false;
}

writer_pass-PassesOr_example :
    (result : Bool × IpcWriter socket (fifo Bytes) (fifo Bytes)) × (writer_pass socket
        (fifo Bytes)
        (fifo Bytes)
        3
        (frame_ready (some (9 ∷ [])))
        writer
      ≡ some result)
    × PassesOr socket socket_laws
        (fifo Bytes)
        (fifo Bytes)
        3
        (encode_frame (9 ∷ []) ∷ encode_frame (5 ∷ []) ∷ encode_frame (6 ∷ []) ∷ (0 ∷ 4 ∷ []) ∷ [])
        writer
        result
writer_pass-PassesOr_example =
    writer_pass-PassesOr socket socket_laws (fifo Bytes) (fifo Bytes) (fifo_receiver Bytes)
      (fifo_receiver Bytes) 3 (inl (9 ∷ [])) writer (omega arith) (omega arith) (omega arith)

abbrev outbox : Outbox Bytes (List Bytes)
outbox = record { send = λ c a. (true, c ++ a ∷ []) }

abbrev waiting : Map ℕ
waiting = (6, 1) ∷ []

abbrev requests : Requests outbox toy_commands
requests = record { next_request_id = 7; pending_proxy_responses = waiting; control_tx = [] }

start_command-IsIssued_example :
    (Map.get 7 waiting ≡ none)
    × (Map.get 6
          (start_command outbox toy_commands
            (get_iface_stats 0)
            2
            requests).1.pending_proxy_responses
        ≡ Map.get 6 waiting)
    × IsIssued outbox toy_commands
        (start_command outbox toy_commands (get_iface_stats 0) 2 requests).1
start_command-IsIssued_example =
    start_command-IsIssued outbox toy_commands (get_iface_stats 0) 2 6 requests (omega arith, tt)
      (omega arith)

-- A proxy that is silent for some reads, and then answers a byte a read: the reads until then, the
-- reads until the deadline, and the bytes to come.
abbrev Slow : Type 0
Slow = ℕ × ℕ × Bytes

abbrev slow_read : Slow → ℕ → IoResult Bytes × Slow
slow_read (suc silent, time, bs) n =
    (err (io_error would_block "timed out"), (silent, time - 1, bs))
slow_read (zero, time, bs) zero = (ok [], (zero, time, bs))
slow_read (zero, time, []) (suc n) = (ok [], (zero, time, []))
slow_read (zero, time, b ∷ bs) (suc n) = (ok (b ∷ []), (zero, time, bs))

abbrev slow : Child Slow
slow = record {
  read = slow_read;
  past_deadline = λ d. d.1 == 0;
  try_wait = λ d. ok none;
  stderr = λ d. "";
  is_empty = λ s. true;
}

slow-read-ok :
    (d : Slow) (n : ℕ) (bs : Bytes)
    → (slow_read d n).0 ≡ ok bs
    → (length bs ≤ n) × (d.2 ≡ bs ++ (slow_read d n).1.2) × ((slow_read d n).1.1 ≤ d.1)
slow-read-ok (suc silent, time, rest) n bs e = absurd cc
slow-read-ok (zero, time, rest) zero bs e = ground arith
slow-read-ok (zero, time, []) (suc n) bs e = ground arith
slow-read-ok (zero, time, b ∷ rest) (suc n) bs e = ground arith

slow-read-err :
    (d : Slow) (n : ℕ) (e : IoError)
    → (slow_read d n).0 ≡ err e
    → ((slow_read d n).1.2 ≡ d.2)
      × ((((slow_read d n).1.1 == 0) ≡ true) ⊎ ((slow_read d n).1.1 < d.1))
slow-read-err (suc silent, time, rest) n e h = ground arith
slow-read-err (zero, time, rest) zero e h = absurd cc
slow-read-err (zero, time, []) (suc n) e h = absurd cc
slow-read-err (zero, time, b ∷ rest) (suc n) e h = absurd cc

abbrev slow_laws : ChildLaws slow
slow_laws = record {
  input = λ d. d.2;
  ticks = λ d. d.1;
  read-ok = slow-read-ok;
  read-err = slow-read-err;
}

read_prefix_loop-Waited_example :
    Waited slow slow_laws
      (read_prefix_loop slow 60 (3, 50, 0 ∷ 0 ∷ 0 ∷ 9 ∷ 1 ∷ []) 4)
      (3, 50, 0 ∷ 0 ∷ 0 ∷ 9 ∷ 1 ∷ [])
      4
read_prefix_loop-Waited_example =
    read_prefix_loop-Waited slow slow_laws 60 (3, 50, 0 ∷ 0 ∷ 0 ∷ 9 ∷ 1 ∷ []) 4 (omega arith)
