-- ===== src/Stack/Fifo.antt =====
-- A queue that stands in for a channel of tokio, to run the models on.
use tap_tunnel.Prelude.{ℕ, zero, suc, ◌+◌, ◌-◌, ◌<◌, ◌≡◌, refl, List, [], ◌∷◌, ◌++◌, ltb, arith}
use tap_tunnel.Channel.{
  Mpsc, ReceiverLaws, SenderLaws, TryRecv, item, empty, TrySend, sent, full, closed,
}

-- A sender: the permits left, and what it has sent.
abbrev pub Fifo : Type 0 → Type 0
Fifo A = ℕ × List A

abbrev fifo_try_recv : {A : Type 0} → List A → TryRecv A × List A
fifo_try_recv [] = (empty, [])
fifo_try_recv (a ∷ rest) = (item a, rest)

abbrev fifo_try_send : {A : Type 0} → Fifo A → A → TrySend × Fifo A
fifo_try_send (zero, out) a = (full, (zero, out))
fifo_try_send (suc n, out) a = (sent, (n, out ++ a ∷ []))

abbrev pub fifo : (A : Type 0) → Mpsc A
fifo A = record {
  Tx = Fifo A;
  Rx = List A;
  channel = λ n. ((n, []), []);
  try_recv = fifo_try_recv;
  try_reserve = λ tx. ltb 0 tx.0;
  permit_send = λ tx a. (tx.0 - 1, tx.1 ++ a ∷ []);
  try_send = fifo_try_send;
}

pub try_recv-item :
    {A : Type 0} (rx : List A) (a : A)
    → (fifo_try_recv rx).0 ≡ item a
    → rx ≡ a ∷ (fifo_try_recv rx).1
try_recv-item [] a e = absurd cc
try_recv-item (b ∷ rx) a e = cc

pub try_recv-empty :
    {A : Type 0} (rx : List A)
    → (fifo_try_recv rx).0 ≡ empty
    → (rx ≡ []) × ((fifo_try_recv rx).1 ≡ [])
try_recv-empty [] e = (refl, refl)
try_recv-empty (b ∷ rx) e = absurd cc

pub try_recv-disconnected :
    {A : Type 0} (rx : List A)
    → (fifo_try_recv rx).0 ≡ TryRecv.disconnected
    → (rx ≡ []) × ((fifo_try_recv rx).1 ≡ [])
try_recv-disconnected [] e = absurd cc
try_recv-disconnected (b ∷ rx) e = absurd cc

abbrev pub fifo_receiver : (A : Type 0) → ReceiverLaws (fifo A)
fifo_receiver A = record {
  queued = λ rx. rx;
  try_recv-item = try_recv-item;
  try_recv-empty = try_recv-empty;
  try_recv-disconnected = try_recv-disconnected;
}

pub try_send-sent :
    {A : Type 0} (tx : Fifo A) (a : A)
    → (fifo_try_send tx a).0 ≡ sent
    → (fifo_try_send tx a).1.1 ≡ tx.1 ++ a ∷ []
try_send-sent (zero, out) a e = absurd cc
try_send-sent (suc n, out) a e = refl

pub try_send-full :
    {A : Type 0} (tx : Fifo A) (a : A)
    → (fifo_try_send tx a).0 ≡ full
    → (fifo_try_send tx a).1.1 ≡ tx.1
try_send-full (zero, out) a e = refl
try_send-full (suc n, out) a e = absurd cc

pub try_send-closed :
    {A : Type 0} (tx : Fifo A) (a : A)
    → (fifo_try_send tx a).0 ≡ closed
    → (fifo_try_send tx a).1.1 ≡ tx.1
try_send-closed (zero, out) a e = refl
try_send-closed (suc n, out) a e = absurd cc

pub sender-room : {A : Type 0} (tx : Fifo A) → 0 < tx.0 → tx.0 - 1 + 1 ≡ tx.0
sender-room tx h = omega arith

abbrev pub fifo_sender : (A : Type 0) → SenderLaws (fifo A)
fifo_sender A = record {
  delivered = λ tx. tx.1;
  room = λ tx. tx.0;
  try_reserve-room = λ tx. refl;
  delivered-permit_send = λ tx a. refl;
  room-permit_send = λ tx a h. sender-room tx h;
  try_send-sent = try_send-sent;
  try_send-full = try_send-full;
  try_send-closed = try_send-closed;
}
