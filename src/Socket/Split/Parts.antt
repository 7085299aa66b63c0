-- ===== src/Socket/Split/Parts.antt =====
-- A split stream of src/socket/mod.rs goes on where the stream was, and writes whole buffers.
use tap_tunnel.Prelude.{
  ℕ, zero, suc, ◌<◌, ◌≡◌, refl, sym, ap, ◌∙◌, Option, List, [], ◌∷◌, ◌++◌, append-nil, concat, true,
  false, some, length, drop, length-drop, ltb, Bool-cases, Option-cases, inl, inr, ◌⊎◌, arith,
}
use tap_tunnel.Io.{IoDone, ok, err, io_error, broken_pipe}
use tap_tunnel.Bytes.{Bytes}
use tap_tunnel.Channel.{Mpsc}
use tap_tunnel.Stack.State.{StackCommand}
use tap_tunnel.Socket.{Waits, TcpStream, read}
use tap_tunnel.Socket.Reads.{WaitLaws, unread, read_each, read_each-unread}
use tap_tunnel.Socket.Split.{OwnedReadHalf, OwnedWriteHalf, split, half_read, half_write, write_all}

-- What a wait to send does: the messages that the channel has taken.
pub record SendLaws {A : Type 0} {ch : Mpsc A} (waits : Waits ch) : Type 0 where
  pub taken : ch.Tx → List A
  pub send-true :
      (tx : ch.Tx) (a : A)
      → (waits.send tx a).0 ≡ true
      → taken (waits.send tx a).1 ≡ taken tx ++ a ∷ []
  pub send-false :
      (tx : ch.Tx) (a : A) → (waits.send tx a).0 ≡ false → taken (waits.send tx a).1 ≡ taken tx

module _ (tcp : Mpsc Bytes) (commands : Mpsc StackCommand) (waits : Waits tcp)
    (laws : WaitLaws waits) where
  open laws use {expected}

  unfoldable pub half_read_each :
      OwnedReadHalf tcp commands → List ℕ → List Bytes × OwnedReadHalf tcp commands
  half_read_each s [] = ([], s)
  half_read_each s (n ∷ ns) =
      let (out, s') = half_read tcp commands waits s n in
      let (outs, s'') = half_read_each s' ns in (out ∷ outs, s'')

  abbrev pub half_unread : OwnedReadHalf tcp commands → Bytes
  half_unread s = s.read_buf ++ concat (expected s.read_rx)

  half_read-split :
      (s : TcpStream tcp commands) (n : ℕ)
      → half_read tcp commands waits (split tcp commands s).0 n
        ≡ ((read tcp commands waits s n).0, (split tcp commands (read tcp commands waits s n).1).0)
  unfolding half_read split read
  half_read-split s n = elim (Bool-cases (ltb 0 (length s.read_buf))) [
    | inl buffered ↦ ground arith
    | inr drained ↦ elim (Option-cases (waits.recv s.read_rx).0) [
      | inl ended ↦ ground arith
      | inr (chunk, got) ↦ ground arith
    ]
  ]

  half_read_each-split :
      (ns : List ℕ) (s : TcpStream tcp commands)
      → half_read_each (split tcp commands s).0 ns ≡ (
        (read_each tcp commands waits laws s ns).0,
        (split tcp commands (read_each tcp commands waits laws s ns).1).0,
      )
  unfolding half_read_each read_each
  half_read_each-split [] s = refl
  half_read_each-split (n ∷ ns) s =
      ground (arith, half_read-split s n, half_read_each-split ns (read tcp commands waits s n).1)

  -- A stream that is split after some reads goes on where they ended: the bytes read from the
  -- stream, then those read from the read half, then those still unread, are the bytes that were
  -- unread at first, whatever the sizes of the buffers.
  pub half_read_each-unread :
      (s : TcpStream tcp commands) (ns ms : List ℕ)
      → concat (read_each tcp commands waits laws s ns).0
          ++ (concat
                (half_read_each
                  (split tcp commands (read_each tcp commands waits laws s ns).1).0
                  ms).0
              ++ half_unread
                  (half_read_each
                    (split tcp commands (read_each tcp commands waits laws s ns).1).0
                    ms).1)
        ≡ unread tcp commands waits laws s
  unfolding split
  half_read_each-unread s ns ms =
      let later = (read_each tcp commands waits laws s ns).1 in
      let same = half_read_each-split ms later in
      ap (λ r. concat (read_each tcp commands waits laws s ns).0 ++ (concat r.0 ++ half_unread r.1))
        same
      ∙ ap (λ t. concat (read_each tcp commands waits laws s ns).0 ++ t)
          (read_each-unread tcp commands waits laws later ms)
      ∙ read_each-unread tcp commands waits laws s ns

-- The messages for a buffer: the buffer as it is, and none when it is empty.
abbrev pub messages_of : Bytes → List Bytes
messages_of [] = []
messages_of (b ∷ bs) = (b ∷ bs) ∷ []

module _ (tcp : Mpsc Bytes) (commands : Mpsc StackCommand) (waits : Waits tcp)
    (laws : SendLaws waits) where
  open laws use {taken, send-true, send-false}

  -- Either `buf` was put on the channel, or the stack task is gone and nothing was.
  abbrev pub SendsAll :
      Option (IoDone × OwnedWriteHalf tcp commands) → OwnedWriteHalf tcp commands → Bytes → Type 0
  SendsAll result s buf =
      (r : IoDone) × (after : OwnedWriteHalf tcp commands) × (result ≡ some (r, after))
      × (((r ≡ ok tt) × (taken after.write_tx ≡ taken s.write_tx ++ messages_of buf))
          ⊎ ((r ≡ err (io_error broken_pipe "stack task gone"))
              × (taken after.write_tx ≡ taken s.write_tx)))

  write_all-nothing :
      (fuel : ℕ) (s : OwnedWriteHalf tcp commands) (buf : Bytes)
      → length buf ≡ 0
      → write_all tcp commands waits (suc fuel) s buf ≡ some (ok tt, s)
  unfolding write_all
  write_all-nothing fuel s buf e = ground arith

  -- With fuel for two rounds `write_all` ends. It puts the whole buffer on the channel as one message, and no message when
  -- the buffer is empty; or it reports a broken pipe, and no message was put on the channel.
  pub write_all-SendsAll :
      (fuel : ℕ) (s : OwnedWriteHalf tcp commands) (buf : Bytes)
      → 1 < fuel
      → SendsAll (write_all tcp commands waits fuel s buf) s buf
  unfolding write_all half_write
  write_all-SendsAll zero s buf enough = absurd (omega arith)
  write_all-SendsAll (suc zero) s buf enough = absurd (omega arith)
  write_all-SendsAll (suc (suc fuel)) s [] enough = (ok tt, s, refl, inl (refl, sym (append-nil _)))
  write_all-SendsAll (suc (suc fuel)) s (b ∷ bs) enough =
      let after : OwnedWriteHalf tcp commands = record s {
        write_tx = (waits.send s.write_tx (b ∷ bs)).1;
      } in
      elim (Bool-cases (waits.send s.write_tx (b ∷ bs)).0) [
        | inl there ↦ (
          ok tt,
          after,
          ground (
            arith,
            write_all-nothing fuel after (drop (length (b ∷ bs)) (b ∷ bs))
                (omega (arith, length-drop (length (b ∷ bs)) (b ∷ bs))),
          ),
          inl (refl, send-true s.write_tx (b ∷ bs) there),
        )
        | inr gone ↦ (
          err (io_error broken_pipe "stack task gone"),
          after,
          ground arith,
          inr (refl, send-false s.write_tx (b ∷ bs) gone),
        )
      ]
