-- ===== src/Channel.antt =====
-- The bounded channels of tokio (`tokio::sync::mpsc`), which are not part of the repository: the
-- operations that the code calls, and what their documentation says of them. The two ends are
-- used by different tasks, so what a receiver will still find is described as the queue of the
-- messages that it takes before it next finds the channel empty.
use tap_tunnel.Prelude.{ℕ, ◌+◌, ◌<◌, ◌≡◌, Bool, List, [], ◌∷◌, ◌++◌, ltb, true, false}

-- `Result<T, TryRecvError>`
pub data TryRecv (A : Type 0) : Type 0 where
  item : A → TryRecv A
  empty : TryRecv A
  disconnected : TryRecv A

-- `Result<(), TrySendError<T>>`
pub data TrySend : Type 0 where
  sent full closed : TrySend

pub record Mpsc (A : Type 0) : Type 1 where
  pub Tx : Type 0
  pub Rx : Type 0
  -- `mpsc::channel(capacity)`
  pub channel : ℕ → Tx × Rx
  pub try_recv : Rx → TryRecv A × Rx
  -- `try_reserve`, and `Permit::send` on the permit: `none` when there is no permit to be had.
  pub try_reserve : Tx → Bool
  pub permit_send : Tx → A → Tx
  pub try_send : Tx → A → TrySend × Tx

-- What the receiving end relies on.
pub record ReceiverLaws {A : Type 0} (ch : Mpsc A) : Type 0 where
  pub queued : ch.Rx → List A
  pub try_recv-item :
      (rx : ch.Rx) (a : A) → (ch.try_recv rx).0 ≡ item a → queued rx ≡ a ∷ queued (ch.try_recv rx).1
  pub try_recv-empty :
      (rx : ch.Rx)
      → (ch.try_recv rx).0 ≡ empty
      → (queued rx ≡ []) × (queued (ch.try_recv rx).1 ≡ [])
  pub try_recv-disconnected :
      (rx : ch.Rx)
      → (ch.try_recv rx).0 ≡ disconnected
      → (queued rx ≡ []) × (queued (ch.try_recv rx).1 ≡ [])

-- What the sending end relies on: the messages delivered so far, and the permits left.
pub record SenderLaws {A : Type 0} (ch : Mpsc A) : Type 0 where
  pub delivered : ch.Tx → List A
  pub room : ch.Tx → ℕ
  pub try_reserve-room : (tx : ch.Tx) → ch.try_reserve tx ≡ ltb 0 (room tx)
  pub delivered-permit_send :
      (tx : ch.Tx) (a : A) → delivered (ch.permit_send tx a) ≡ delivered tx ++ a ∷ []
  pub room-permit_send :
      (tx : ch.Tx) (a : A) → 0 < room tx → room (ch.permit_send tx a) + 1 ≡ room tx
  -- A failed `try_send` hands the message back.
  pub try_send-sent :
      (tx : ch.Tx) (a : A)
      → (ch.try_send tx a).0 ≡ sent
      → delivered (ch.try_send tx a).1 ≡ delivered tx ++ a ∷ []
  pub try_send-full :
      (tx : ch.Tx) (a : A)
      → (ch.try_send tx a).0 ≡ full
      → delivered (ch.try_send tx a).1 ≡ delivered tx
  pub try_send-closed :
      (tx : ch.Tx) (a : A)
      → (ch.try_send tx a).0 ≡ closed
      → delivered (ch.try_send tx a).1 ≡ delivered tx

-- `Sender::send(…).await`, which waits for room: whether the receiver is still there.
pub record Outbox (A C : Type 0) : Type 0 where
  pub send : C → A → Bool × C

-- What the sending end relies on.
pub record OutboxLaws {A C : Type 0} (out : Outbox A C) : Type 0 where
  pub accepted : C → List A
  pub send-true :
      (c : C) (a : A) → (out.send c a).0 ≡ true → accepted (out.send c a).1 ≡ accepted c ++ a ∷ []
  -- A message that is not sent comes back.
  pub send-false :
      (c : C) (a : A) → (out.send c a).0 ≡ false → accepted (out.send c a).1 ≡ accepted c
