-- ===== src/Stack/Device.antt =====
-- `ProxyDevice` of src/stack/device.rs: smoltcp's device, on the two channels of frames that the IPC
-- tasks serve.
use mathlib.Core.Path.{subst}
use tap_tunnel.Prelude.{
  ℕ, ◌+◌, ◌^◌, ◌<◌, ◌≡◌, refl, sym, ap, ◌∙◌, Option, none, some, List, [], ◌∷◌, ◌++◌, append-nil,
  append_assoc, length, replicate, arith, map,
}
use tap_tunnel.Bytes.{Bytes}
use tap_tunnel.Channel.{Mpsc, SenderLaws, item, empty, disconnected, TrySend, sent, full, closed}
use tap_tunnel.Stats.{TunnelStats, fetch_add_one, fetch_add, fetch_add-suc, fetch_add-zero}

module _ (frames : Mpsc Bytes) where
  pub record ProxyDevice : Type 0 where
    pub rx : frames.Rx
    pub tx : frames.Tx
    pub mtu : ℕ
    pub stats : TunnelStats

  -- `receive`: the frame of the `ProxyRxToken`.
  unfoldable pub receive : ProxyDevice → Option Bytes × ProxyDevice
  receive d =
      let (got, rx) = frames.try_recv d.rx in
      elim got [
        | item frame ↦ (
          some frame,
          record d {
            rx = rx;
            stats = record d.stats { device_rx_frames = fetch_add_one d.stats.device_rx_frames };
          },
        )
        | empty ↦ (none, record d { rx = rx })
        | disconnected ↦ (none, record d { rx = rx })
      ]

  -- After `try_send`.
  unfoldable pub count_sent : TrySend × frames.Tx → ProxyDevice → ProxyDevice
  count_sent (sent, tx) d = record d {
    tx = tx;
    stats = record d.stats { device_tx_frames = fetch_add_one d.stats.device_tx_frames };
  }
  count_sent (full, tx) d = record d {
    tx = tx;
    stats = record d.stats { device_tx_dropped = fetch_add_one d.stats.device_tx_dropped };
  }
  count_sent (closed, tx) d = record d {
    tx = tx;
    stats = record d.stats { device_tx_dropped = fetch_add_one d.stats.device_tx_dropped };
  }

  -- `ProxyTxToken::consume`: the function fills a buffer of `len` zeros, which is then sent.
  unfoldable pub consume : {R : Type 0} → ProxyDevice → ℕ → (Bytes → R × Bytes) → R × ProxyDevice
  unfolding count_sent
  consume d len f =
      let (result, buffer) = f (replicate len 0) in
      (result, count_sent (frames.try_send d.tx buffer) d)

  -- One token after the other, each with the function that fills its buffer.
  unfoldable pub consume_all :
      {R : Type 0} → ProxyDevice → List (ℕ × (Bytes → R × Bytes)) → ProxyDevice
  unfolding consume
  consume_all d [] = d
  consume_all d ((len, f) ∷ rest) = consume_all (consume d len f).1 rest

  -- The frames that smoltcp makes, each in a buffer of zeros.
  abbrev pub filled : {R : Type 0} → List (ℕ × (Bytes → R × Bytes)) → List Bytes
  filled fs = map (λ p. (p.1 (replicate p.0 0)).1) fs

  -- The frames that the channel takes, when they are put on it in turn, and those that it does not.
  unfoldable pub accepted_of : frames.Tx → List Bytes → List Bytes
  accepted_of tx [] = []
  accepted_of tx (buffer ∷ rest) =
      let (said, next) = frames.try_send tx buffer in
      let later = accepted_of next rest in
      elim said [ sent ↦ buffer ∷ later | full ↦ later | closed ↦ later ]

  unfoldable pub refused_of : frames.Tx → List Bytes → List Bytes
  refused_of tx [] = []
  refused_of tx (buffer ∷ rest) =
      let (said, next) = frames.try_send tx buffer in
      let later = refused_of next rest in
      elim said [ sent ↦ later | full ↦ buffer ∷ later | closed ↦ buffer ∷ later ]

  module _ (outbox : SenderLaws frames) where
    open outbox use {delivered, try_send-sent, try_send-full, try_send-closed}

    abbrev pub IsTxCounted : ProxyDevice → Type 0
    IsTxCounted d = (d.stats.device_tx_frames < 2 ^ 64) × (d.stats.device_tx_dropped < 2 ^ 64)

    -- What the transmission of these frames did.
    abbrev pub Transmits : List Bytes → (before after : ProxyDevice) → Type 0
    Transmits buffers before after =
        (length (accepted_of before.tx buffers) + length (refused_of before.tx buffers)
          ≡ length buffers)
        × (delivered after.tx ≡ delivered before.tx ++ accepted_of before.tx buffers)
        × (after.stats ≡ record before.stats {
          device_tx_frames =
              fetch_add (length (accepted_of before.tx buffers)) before.stats.device_tx_frames;
          device_tx_dropped =
              fetch_add (length (refused_of before.tx buffers)) before.stats.device_tx_dropped;
        })

    count_one :
        (said : TrySend) (buffer : Bytes) (rest : List Bytes) (d after : ProxyDevice)
        → (frames.try_send d.tx buffer).0 ≡ said
        → Transmits rest (count_sent (frames.try_send d.tx buffer) d) after
        → Transmits (buffer ∷ rest) d after
    unfolding count_sent accepted_of refused_of
    count_one sent buffer rest d after e next =
        let tx = (frames.try_send d.tx buffer).1 in
        let r : frames.try_send d.tx buffer ≡ (sent, tx) = ap (λ t. (t, tx)) e in
        let (n, put, stats) = subst (λ t. Transmits rest (count_sent t d) after) r next in
        (
          ground (arith, n),
          ground (
            arith,
            put
                ∙ ap (λ t. t ++ accepted_of tx rest) (try_send-sent d.tx buffer e)
                ∙ append_assoc (delivered d.tx) (buffer ∷ []) (accepted_of tx rest),
          ),
          ground
              (arith, stats, fetch_add-suc (length (accepted_of tx rest)) d.stats.device_tx_frames),
        )
    count_one full buffer rest d after e next =
        let tx = (frames.try_send d.tx buffer).1 in
        let r : frames.try_send d.tx buffer ≡ (full, tx) = ap (λ t. (t, tx)) e in
        let (n, put, stats) = subst (λ t. Transmits rest (count_sent t d) after) r next in
        (
          ground (arith, n),
          ground (arith, put ∙ ap (λ t. t ++ accepted_of tx rest) (try_send-full d.tx buffer e)),
          ground
              (arith, stats, fetch_add-suc (length (refused_of tx rest)) d.stats.device_tx_dropped),
        )
    count_one closed buffer rest d after e next =
        let tx = (frames.try_send d.tx buffer).1 in
        let r : frames.try_send d.tx buffer ≡ (closed, tx) = ap (λ t. (t, tx)) e in
        let (n, put, stats) = subst (λ t. Transmits rest (count_sent t d) after) r next in
        (
          ground (arith, n),
          ground (arith, put ∙ ap (λ t. t ++ accepted_of tx rest) (try_send-closed d.tx buffer e)),
          ground
              (arith, stats, fetch_add-suc (length (refused_of tx rest)) d.stats.device_tx_dropped),
        )

    counted :
        (r : TrySend × frames.Tx) (d : ProxyDevice) → IsTxCounted d → IsTxCounted (count_sent r d)
    unfolding count_sent fetch_add_one
    counted (sent, tx) d (a, b) = (omega arith, b)
    counted (full, tx) d (a, b) = (a, omega arith)
    counted (closed, tx) d (a, b) = (a, omega arith)

    -- The frames that smoltcp transmits, each made by its function in a buffer of zeros of the length
    -- asked for, are put on the channel in order: those that the channel takes are appended to it, as
    -- they are, and counted in `device_tx_frames`, those that it does not take are counted in
    -- `device_tx_dropped`, each once, modulo 2^64, and no other counter moves. The two counters
    -- start below 2^64.
    pub consume_all-Transmits :
        {R : Type 0} (fs : List (ℕ × (Bytes → R × Bytes))) (d : ProxyDevice)
        → IsTxCounted d
        → Transmits (filled fs) d (consume_all d fs)
    unfolding consume_all consume accepted_of refused_of
    consume_all-Transmits [] d (a, b) = (
      refl,
      sym (append-nil _),
      ground (
        arith,
        fetch_add-zero d.stats.device_tx_frames,
        fetch_add-zero d.stats.device_tx_dropped,
      ),
    )
    consume_all-Transmits ((len, f) ∷ rest) d h =
        let buffer = (f (replicate len 0)).1 in
        count_one (frames.try_send d.tx buffer).0 buffer (filled rest) d
          (consume_all (count_sent (frames.try_send d.tx buffer) d) rest) refl
          (consume_all-Transmits rest (count_sent (frames.try_send d.tx buffer) d)
            (counted (frames.try_send d.tx buffer) d h))
