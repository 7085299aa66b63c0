-- ===== src/Socket/Reads.antt =====
-- Reading from a `TcpStream` of src/socket/mod.rs: whatever the sizes of the caller's buffers, the
-- bytes arrive in order.
use mathlib.Core.Path.{subst}
use tap_tunnel.Prelude.{
  All, ℕ, ◌≤◌, ◌<◌, ◌≡◌, refl, sym, ap, ◌∙◌, false, none, some, List, [], ◌∷◌, ◌++◌, append_assoc,
  min, length, length-take, take, take-append-drop, ltb, concat, arith, Bool-cases, Option-cases,
  inl, inr,
}
use tap_tunnel.Bytes.{Bytes}
use tap_tunnel.Channel.{Mpsc}
use tap_tunnel.Stack.State.{StackCommand}
use tap_tunnel.Socket.{Waits, TcpStream, read, deliver}

-- A wait on a receiver ends with the first message that it is to get, or when there will be none.
pub record WaitLaws {A : Type 0} {ch : Mpsc A} (waits : Waits ch) : Type 0 where
  pub expected : ch.Rx → List A
  pub recv-some :
      (rx : ch.Rx) (a : A)
      → (waits.recv rx).0 ≡ some a
      → expected rx ≡ a ∷ expected (waits.recv rx).1
  pub recv-none :
      (rx : ch.Rx)
      → (waits.recv rx).0 ≡ none
      → (expected rx ≡ []) × (expected (waits.recv rx).1 ≡ [])

no_bytes : (bs : Bytes) → ltb 0 (length bs) ≡ false → bs ≡ []
no_bytes [] h = refl
no_bytes (b ∷ bs) h = absurd (ground arith)

module _ (tcp : Mpsc Bytes) (commands : Mpsc StackCommand) (waits : Waits tcp)
    (laws : WaitLaws waits) where
  open laws use {expected, recv-some, recv-none}

  -- The bytes that the application has not read.
  abbrev pub unread : TcpStream tcp commands → Bytes
  unread s = s.read_buf ++ concat (expected s.read_rx)

  -- One read after the other, into buffers of these sizes.
  unfoldable pub read_each : TcpStream tcp commands → List ℕ → List Bytes × TcpStream tcp commands
  read_each s [] = ([], s)
  read_each s (n ∷ ns) =
      let (out, s') = read tcp commands waits s n in
      let (outs, s'') = read_each s' ns in (out ∷ outs, s'')

  deliver-split :
      (chunk : Bytes) (n : ℕ)
      → ((deliver tcp commands chunk n).0 ++ (deliver tcp commands chunk n).1 ≡ chunk)
        × (length (deliver tcp commands chunk n).0 ≤ n)
  unfolding deliver
  deliver-split chunk n = (
    take-append-drop (min (length chunk) n) chunk,
    omega (arith, length-take (min (length chunk) n) chunk),
  )

  abbrev pub ReadsFront : TcpStream tcp commands → ℕ → Bytes × TcpStream tcp commands → Type 0
  ReadsFront s n (out, after) = (out ++ unread after ≡ unread s) × (length out ≤ n)

  read-ReadsFront :
      (s : TcpStream tcp commands) (n : ℕ) → ReadsFront s n (read tcp commands waits s n)
  unfolding read
  read-ReadsFront s n = elim (Bool-cases (ltb 0 (length s.read_buf))) [
    | inl buffered ↦
        let (split, few) = deliver-split s.read_buf n in
        rw buffered (
          sym (append_assoc _ _ (concat (expected s.read_rx)))
              ∙ ap (λ t. t ++ concat (expected s.read_rx)) split,
          few,
        )
    | inr drained ↦ elim (Option-cases (waits.recv s.read_rx).0) [
      | inl ended ↦
          let (before, after) = recv-none s.read_rx ended in
          rw (drained, ended) (rw (before, after, no_bytes s.read_buf drained) refl, omega arith)
      | inr (chunk, got) ↦
          let (split, few) = deliver-split chunk n in
          rw (drained, got)
            (
              sym (append_assoc _ _ (concat (expected (waits.recv s.read_rx).1)))
                  ∙ ap (λ t. t ++ concat (expected (waits.recv s.read_rx).1)) split
                  ∙ rw (recv-some s.read_rx chunk got, no_bytes s.read_buf drained) refl,
              few,
            )
    ]
  ]

  -- Reads into buffers of any sizes give, one after the other, the bytes that were sent to the
  -- stream, in order: what was read, followed by what is still unread, is what was unread before.
  pub read_each-unread :
      (s : TcpStream tcp commands) (ns : List ℕ)
      → concat (read_each s ns).0 ++ unread (read_each s ns).1 ≡ unread s
  unfolding read_each
  read_each-unread s [] = refl
  read_each-unread s (n ∷ ns) =
      append_assoc _ (concat (read_each (read tcp commands waits s n).1 ns).0) _
      ∙ ap (λ t. (read tcp commands waits s n).0 ++ t)
          (read_each-unread (read tcp commands waits s n).1 ns)
      ∙ (read-ReadsFront s n).0

  -- A read into a buffer with room gives no bytes only at the end of the stream, if no chunk that
  -- the stream gets is empty.
  pub read-eof :
      (s : TcpStream tcp commands) (n : ℕ)
      → 0 < n
      → All (λ chunk. 0 < length chunk) (expected s.read_rx)
      → (read tcp commands waits s n).0 ≡ []
      → unread s ≡ []
  unfolding read deliver
  read-eof s n room full e = elim (Bool-cases (ltb 0 (length s.read_buf))) [
    | inl buffered ↦
        let some_bytes : take (min (length s.read_buf) n) s.read_buf ≡ [] = rw buffered at e in
        absurd
          (ground (arith, length-take (min (length s.read_buf) n) s.read_buf, ap length some_bytes))
    | inr drained ↦ elim (Option-cases (waits.recv s.read_rx).0) [
      | inl ended ↦ rw ((recv-none s.read_rx ended).0, no_bytes s.read_buf drained) refl
      | inr (chunk, got) ↦
          let nothing : take (min (length chunk) n) chunk ≡ [] = rw (drained, got) at e in
          let long = subst (All (λ c. 0 < length c)) (recv-some s.read_rx chunk got) full in
          absurd
            (ground (arith, length-take (min (length chunk) n) chunk, ap length nothing, long.0))
    ]
  ]
