-- ===== src/Tunnel/Writer/Batch.antt =====
-- What one pass of the writer task of src/lib.rs puts on the wire.
use mathlib.Core.Path.{subst}
use tap_tunnel.Prelude.{
  ℕ, ◌+◌, ◌<◌, ◌≡◌, sym, ap, ◌∙◌, true, List, [], ◌∷◌, ◌++◌, append-nil, append_assoc, length,
  arith, Bool-cases, inl, inr, ◌⊎◌, ◌%◌, ◌^◌, Bool, false,
}
use tap_tunnel.Bytes.{Bytes, u32_to_be}
use tap_tunnel.Channel.{Mpsc}
use tap_tunnel.Stats.{fetch_add_one, fetch_add, fetch_add-zero, fetch_add-one, fetch_add-fetch_add}
use tap_tunnel.Protocol.{encode_frame}
use tap_tunnel.Protocol.Streams.{framed, framed_all, framed_all-append}
use tap_tunnel.Tunnel.Writer.{Sink, write_framed, IpcWriter, write_frame, write_control}

-- What the writer has taken, and what of it has reached the socket. A write that succeeds has taken
-- all of its bytes; after a flush that succeeds all that was taken has reached the socket.
pub record SinkLaws {W : Type 0} (sink : Sink W) : Type 0 where
  pub taken : W → Bytes
  pub passed : W → Bytes
  pub write_all-taken :
      (w : W) (bs : Bytes)
      → (sink.write_all w bs).0 ≡ true
      → taken (sink.write_all w bs).1 ≡ taken w ++ bs
  pub flush-passed : (w : W) → (sink.flush w).0 ≡ true → passed (sink.flush w).1 ≡ taken w

module _ {W : Type 0} (sink : Sink W) (laws : SinkLaws sink) where
  open laws use {taken, write_all-taken}

  pub write_framed-taken :
      (w : W) (msg : Bytes)
      → (write_framed sink w msg).0 ≡ true
      → taken (write_framed sink w msg).1 ≡ taken w ++ framed msg
  unfolding write_framed framed
  write_framed-taken w msg good =
      elim (Bool-cases (sink.write_all w (u32_to_be (length msg % 2 ^ 32))).0) [
        | inr bad ↦ absurd (ground arith)
        | inl len_ok ↦
            let body = rw len_ok at good in
            rw len_ok (
              write_all-taken _ msg body
              ∙ ap (λ t. t ++ msg) (write_all-taken w (u32_to_be (length msg % 2 ^ 32)) len_ok)
              ∙ append_assoc (taken w) _ msg)
      ]

-- A call on the socket's writer that failed.
abbrev pub Fails : {W : Type 0} → Sink W → Type 0
Fails {W} sink =
    ((w : W) × (bs : Bytes) × ((sink.write_all w bs).0 ≡ false))
    ⊎ ((w : W) × ((sink.flush w).0 ≡ false))

pub write_framed-Fails :
    {W : Type 0} (sink : Sink W) (w : W) (msg : Bytes)
    → (write_framed sink w msg).0 ≡ false
    → Fails sink
unfolding write_framed
write_framed-Fails sink w msg bad =
    elim (Bool-cases (sink.write_all w (u32_to_be (length msg % 2 ^ 32))).0) [
      | inr failed ↦ inl (w, u32_to_be (length msg % 2 ^ 32), failed)
      | inl len_ok ↦
          inl ((sink.write_all w (u32_to_be (length msg % 2 ^ 32))).1, msg, rw len_ok at bad)
    ]

module _ {W : Type 0} (sink : Sink W) (laws : SinkLaws sink) (frames controls : Mpsc Bytes) where
  open laws use {taken, passed}

  abbrev pub State : Type 0
  State = IpcWriter sink frames controls

  -- The writer took `msgs`, `k` of them frames, or a call failed and the connection is lost.
  abbrev pub SendsOr : (k : ℕ) (msgs : List Bytes) (before after : State) → Type 0
  SendsOr k msgs before after =
      ((after.ipc_dead ≡ true) × Fails sink)
      ⊎ ((taken after.writer ≡ taken before.writer ++ framed_all msgs)
          × (after.stats
              ≡ record before.stats { ipc_tx_frames = fetch_add k before.stats.ipc_tx_frames }))

  abbrev pub IsTxCounted : State → Type 0
  IsTxCounted s = s.stats.ipc_tx_frames < 2 ^ 64

  -- One batch after another.
  pub SendsOr-trans :
      (k l : ℕ) (xs ys : List Bytes) (a b c : State)
      → ((b.ipc_dead ≡ true) → c.ipc_dead ≡ true)
      → SendsOr k xs a b
      → SendsOr l ys b c
      → SendsOr (k + l) (xs ++ ys) a c
  SendsOr-trans k l xs ys a b c lost (inl (dead, why)) second = inl (lost dead, why)
  SendsOr-trans k l xs ys a b c lost (inr first) (inl dead) = inl dead
  SendsOr-trans k l xs ys a b c lost (inr (out, stats)) (inr (out', stats')) = inr (
    out'
        ∙ ap (λ t. t ++ framed_all ys) out
        ∙ append_assoc (taken a.writer) (framed_all xs) (framed_all ys)
        ∙ ap (λ t. taken a.writer ++ t) (sym (framed_all-append xs ys)),
    stats' ∙ ground (arith, stats, fetch_add-fetch_add k l a.stats.ipc_tx_frames),
  )

  one_framed : (msg : Bytes) → framed msg ≡ framed_all (msg ∷ [])
  one_framed msg = sym (append-nil (framed msg))

  pub write_frame-Sends :
      (f : Bytes) (s : State)
      → SendsOr 1 (encode_frame f ∷ []) s (write_frame sink frames controls f s).1
  unfolding write_frame
  write_frame-Sends f s = elim (Bool-cases (write_framed sink s.writer (encode_frame f)).0) [
    | inl good ↦ inr (
      ground (
        arith,
        write_framed-taken sink laws s.writer (encode_frame f) good
            ∙ ap (λ t. taken s.writer ++ t) (one_framed (encode_frame f)),
      ),
      ground (arith, fetch_add-one s.stats.ipc_tx_frames),
    )
    | inr bad ↦ inl (ground arith, write_framed-Fails sink s.writer (encode_frame f) bad)
  ]

  pub write_control-Sends :
      (msg : Bytes) (s : State)
      → IsTxCounted s
      → SendsOr 0 (msg ∷ []) s (write_control sink frames controls msg s).1
  unfolding write_control
  write_control-Sends msg s small = elim (Bool-cases (write_framed sink s.writer msg).0) [
    | inl good ↦ inr (
      ground (
        arith,
        write_framed-taken sink laws s.writer msg good
            ∙ ap (λ t. taken s.writer ++ t) (one_framed msg),
      ),
      ground (arith, fetch_add-zero s.stats.ipc_tx_frames),
    )
    | inr bad ↦ inl (ground arith, write_framed-Fails sink s.writer msg bad)
  ]

  pub none_sent : (s : State) → IsTxCounted s → SendsOr 0 [] s s
  none_sent s small = inr (
    sym (append-nil (taken s.writer)),
    ground (arith, fetch_add-zero s.stats.ipc_tx_frames small),
  )

  -- What a drain, or a pass, keeps: a lost connection, and the range of the counter.
  abbrev pub Keeps : State → State → Type 0
  Keeps before after =
      (before.ipc_dead ≡ true → after.ipc_dead ≡ true) × (IsTxCounted before → IsTxCounted after)

  pub write_frame-Keeps : (f : Bytes) (s : State) → Keeps s (write_frame sink frames controls f s).1
  unfolding write_frame fetch_add_one
  write_frame-Keeps f s = (λ dead. ground arith, λ small. ground arith)

  pub write_control-Keeps :
      (msg : Bytes) (s : State) → Keeps s (write_control sink frames controls msg s).1
  unfolding write_control
  write_control-Keeps msg s = (λ dead. ground arith, λ small. ground arith)

  -- What the writer had taken, and then `msgs`, has reached the socket, `k` of them frames, and the
  -- loop goes on; or a call failed, and the connection is lost.
  abbrev pub PassesOr : (k : ℕ) (msgs : List Bytes) → State → Bool × State → Type 0
  PassesOr k msgs before result =
      ((result.1.ipc_dead ≡ true) × Fails sink)
      ⊎ ((result.0 ≡ true)
          × (passed result.1.writer ≡ taken before.writer ++ framed_all msgs)
          × (result.1.stats
              ≡ record before.stats { ipc_tx_frames = fetch_add k before.stats.ipc_tx_frames }))

  -- The first message and the two drains.
  pub SendsOr-pass :
      (k l : ℕ) (b : Bytes) (xs ys : List Bytes) (s0 s1 s2 s3 : State)
      → SendsOr k (b ∷ []) s0 s1
      → SendsOr l xs s1 s2
      → SendsOr 0 ys s2 s3
      → Keeps s1 s2
      → Keeps s2 s3
      → SendsOr (k + l) (b ∷ (xs ++ ys)) s0 s3
  SendsOr-pass k l b xs ys s0 s1 s2 s3 one two three keeps2 keeps3 =
      let later = SendsOr-trans l 0 xs ys s1 s2 s3 keeps3.0 two three in
      let all =
        SendsOr-trans k (l + 0) (b ∷ []) (xs ++ ys) s0 s1 s3 (λ dead. keeps3.0 (keeps2.0 dead)) one
          later in
      subst (λ n. SendsOr (k + n) (b ∷ (xs ++ ys)) s0 s3) (omega arith) all
