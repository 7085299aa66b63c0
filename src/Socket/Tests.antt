-- ===== src/Socket/Tests.antt =====
-- The theorems on src/socket/mod.rs, on a stream whose receiver is a list of chunks.
use tap_tunnel.Prelude.{
  ℕ, false, ◌≡◌, refl, List, [], ◌∷◌, ◌++◌, Option, none, some, true, concat, arith,
}
use tap_tunnel.Bytes.{Bytes}
use tap_tunnel.Net.{socket_v4}
use tap_tunnel.Stack.State.{StackCommand}
use tap_tunnel.Stack.Fifo.{fifo}
use tap_tunnel.Socket.{Waits, ready, TcpStream, read}
use tap_tunnel.Socket.Reads.{WaitLaws, read_each, unread, read_each-unread, read-eof}
use tap_tunnel.Socket.Split.{split, OwnedWriteHalf, write_all}
use tap_tunnel.Socket.Split.Parts.{
  half_read_each, half_unread, half_read_each-unread, SendLaws, SendsAll, write_all-SendsAll,
}
use tap_tunnel.Socket.Halves.{IsCounted, Steps-IsCounted, sequential, dropped}

abbrev next : List Bytes → Option Bytes × List Bytes
next [] = (none, [])
next (chunk ∷ rest) = (some chunk, rest)

abbrev waits : Waits (fifo Bytes)
waits = record {
  recv = next;
  poll_recv = λ rx. (ready (next rx).0, (next rx).1);
  send = λ tx chunk. (true, tx);
}

next-some : (rx : List Bytes) (chunk : Bytes) → (next rx).0 ≡ some chunk → rx ≡ chunk ∷ (next rx).1
next-some [] chunk e = absurd cc
next-some (first ∷ rest) chunk e = cc

next-none : (rx : List Bytes) → (next rx).0 ≡ none → (rx ≡ []) × ((next rx).1 ≡ [])
next-none [] e = (refl, refl)
next-none (first ∷ rest) e = absurd cc

abbrev wait_laws : WaitLaws waits
wait_laws = record { expected = λ rx. rx; recv-some = next-some; recv-none = next-none }

abbrev stream : TcpStream (fifo Bytes) (fifo StackCommand)
stream = record {
  handle = 3;
  local_addr = socket_v4 [] 80;
  peer_addr = socket_v4 [] 4000;
  write_tx = (8, []);
  read_rx = (2 ∷ 3 ∷ 4 ∷ []) ∷ (5 ∷ []) ∷ [];
  read_buf = 1 ∷ [];
}

read_each-unread_example :
    concat (read_each (fifo Bytes) (fifo StackCommand) waits wait_laws stream (4 ∷ 2 ∷ 0 ∷ [])).0
      ++ unread
          (fifo Bytes)
          (fifo StackCommand)
          waits
          wait_laws
          (read_each (fifo Bytes) (fifo StackCommand) waits wait_laws stream (4 ∷ 2 ∷ 0 ∷ [])).1
    ≡ 1 ∷ 2 ∷ 3 ∷ 4 ∷ 5 ∷ []
read_each-unread_example =
    read_each-unread (fifo Bytes) (fifo StackCommand) waits wait_laws stream (4 ∷ 2 ∷ 0 ∷ [])

abbrev ended : TcpStream (fifo Bytes) (fifo StackCommand)
ended = record stream { read_rx = []; read_buf = [] }

read-eof_example : unread (fifo Bytes) (fifo StackCommand) waits wait_laws ended ≡ []
unfolding read
read-eof_example =
    read-eof (fifo Bytes) (fifo StackCommand) waits wait_laws ended 1 (omega arith) tt refl

Steps-IsCounted_example : IsCounted (record {
  inner = record { strong_count = 0; closes = 1 };
  read_half = dropped;
  write_half = dropped;
})
Steps-IsCounted_example = Steps-IsCounted _ sequential

half_read_each-unread_example :
    concat (read_each (fifo Bytes) (fifo StackCommand) waits wait_laws stream (2 ∷ [])).0
      ++ (concat
            (half_read_each
              (fifo Bytes)
              (fifo StackCommand)
              waits
              wait_laws
              (split
                (fifo Bytes)
                (fifo StackCommand)
                (read_each (fifo Bytes) (fifo StackCommand) waits wait_laws stream (2 ∷ [])).1).0
              (2 ∷ 9 ∷ [])).0
          ++ half_unread
              (fifo Bytes)
              (fifo StackCommand)
              waits
              wait_laws
              (half_read_each
                (fifo Bytes)
                (fifo StackCommand)
                waits
                wait_laws
                (split
                  (fifo Bytes)
                  (fifo StackCommand)
                  (read_each (fifo Bytes) (fifo StackCommand) waits wait_laws stream (2 ∷ [])).1).0
                (2 ∷ 9 ∷ [])).1)
    ≡ unread (fifo Bytes) (fifo StackCommand) waits wait_laws stream
half_read_each-unread_example =
    half_read_each-unread (fifo Bytes) (fifo StackCommand) waits wait_laws stream (2 ∷ [])
      (2 ∷ 9 ∷ [])

-- A channel that takes every message.
abbrev open_waits : Waits (fifo Bytes)
open_waits = record {
  recv = next;
  poll_recv = λ rx. (ready (next rx).0, (next rx).1);
  send = λ tx chunk. (true, (tx.0, tx.1 ++ chunk ∷ []));
}

never : (tx : ℕ × List Bytes) (a : Bytes) → true ≡ false → tx.1 ++ a ∷ [] ≡ tx.1
never tx a e = absurd cc

abbrev open_laws : SendLaws open_waits
open_laws = record {
  taken = λ tx. tx.1;
  send-true = λ tx a e. refl;
  send-false = λ tx a e. never tx a e;
}

abbrev write_half : OwnedWriteHalf (fifo Bytes) (fifo StackCommand)
write_half = (split (fifo Bytes) (fifo StackCommand) stream).1

write_all-SendsAll_example :
    SendsAll
      (fifo Bytes)
      (fifo StackCommand)
      open_waits
      open_laws
      (write_all (fifo Bytes) (fifo StackCommand) open_waits 2 write_half (7 ∷ 8 ∷ []))
      write_half
      (7 ∷ 8 ∷ [])
write_all-SendsAll_example =
    write_all-SendsAll (fifo Bytes) (fifo StackCommand) open_waits open_laws 2 write_half
      (7 ∷ 8 ∷ []) (omega arith)
