-- ===== src/Stack/Live.antt =====
-- When a call of `SocketSet::get_mut` in src/stack/mod.rs does not panic: every handle that the
-- stack's maps name has a socket of its kind in the set.
use tap_tunnel.Prelude.{
  ℕ, ◌≡◌, refl, ◌∙◌, Bool, true, false, Option, none, some, ◌==◌, ==_iff, if◌then◌else◌, All,
  Bool-cases, inl, inr, arith,
}
use tap_tunnel.Map.{Map, All-mono}
use tap_tunnel.Stack.Smoltcp.{SetLaws}
use tap_tunnel.Stack.State.{
  World, Stack, PendingOp, tcp_connect, tcp_accept, ListenerState, TcpSocketState, UdpSocketState,
}

module _ (w : World) where
  abbrev pub TcpLive : w.SocketSet → ℕ → Type 0
  TcpLive set h = (x : w.TcpSocket) × (w.get_tcp set h ≡ some x)

  abbrev pub UdpLive : w.SocketSet → ℕ → Type 0
  UdpLive set h = (x : w.UdpSocket) × (w.get_udp set h ≡ some x)

  -- A waiting connect is filed under the handle of its own socket.
  abbrev pub OpLive : w.SocketSet → ℕ × PendingOp w → Type 0
  OpLive set (h, tcp_connect l p c r) = TcpLive set h
  OpLive set (h, tcp_accept r) = Unit

  abbrev pub ListenerLive : w.SocketSet → ℕ × ListenerState → Type 0
  ListenerLive set (h, state) = All (TcpLive set) state.listening_handles

  pub record LiveParts (set : w.SocketSet) (pending : Map (PendingOp w))
      (listeners : Map ListenerState) (tcp_states : Map (TcpSocketState w))
      (udp_states : Map (UdpSocketState w)) : Type 0 where
    pub tcp : All (λ e. TcpLive set e.0) tcp_states
    pub udp : All (λ e. UdpLive set e.0) udp_states
    pub ops : All (OpLive set) pending
    pub backlogs : All (ListenerLive set) listeners

  abbrev pub IsLive : Stack w → Type 0
  IsLive s = LiveParts s.sockets s.pending s.listeners s.tcp_states s.udp_states

  -- Every socket of the one set is a socket of the other.
  pub record Grows (old new : w.SocketSet) : Type 0 where
    pub tcp : (h : ℕ) → TcpLive old h → TcpLive new h
    pub udp : (h : ℕ) → UdpLive old h → UdpLive new h

  pub Grows-refl : (set : w.SocketSet) → Grows set set
  Grows-refl set = record { tcp = λ h x. x; udp = λ h x. x }

  pub Grows-trans : {a b c : w.SocketSet} → Grows a b → Grows b c → Grows a c
  Grows-trans f g = record { tcp = λ h x. g.tcp h (f.tcp h x); udp = λ h x. g.udp h (f.udp h x) }

  OpLive-grow : {a b : w.SocketSet} → Grows a b → (e : ℕ × PendingOp w) → OpLive a e → OpLive b e
  OpLive-grow g (h, tcp_connect l p c r) x = g.tcp h x
  OpLive-grow g (h, tcp_accept r) x = tt

  pub LiveParts-grow :
      {a b : w.SocketSet} {p : Map (PendingOp w)} {l : Map ListenerState}
      {t : Map (TcpSocketState w)} {u : Map (UdpSocketState w)}
      → Grows a b
      → LiveParts a p l t u
      → LiveParts b p l t u
  LiveParts-grow {p} {l} {t} {u} g v = record {
    tcp = All-mono _ _ t (λ e x. g.tcp e.0 x) v.tcp;
    udp = All-mono _ _ u (λ e x. g.udp e.0 x) v.udp;
    ops = All-mono _ _ p (OpLive-grow g) v.ops;
    backlogs =
        All-mono _ _ l (λ e x. All-mono _ _ e.1.listening_handles (λ h y. g.tcp h y) x) v.backlogs;
  }

  -- A handle with no socket.
  abbrev pub IsFree : w.SocketSet → ℕ → Type 0
  IsFree set h = (w.get_tcp set h ≡ none) × (w.get_udp set h ≡ none)

some_if {ℓ} :
    {A : Type ℓ} (b : Bool) (a y : A) (o : Option A)
    → o ≡ some y
    → (z : A) × ((if b then some a else o) ≡ some z)
some_if true a y o e = (a, refl)
some_if false a y o e = (y, e)

IsFree-none {ℓ} : {A : Type ℓ} (o : Option A) → ((y : A) → o ≡ some y → ⊥) → o ≡ none
IsFree-none none h = refl
IsFree-none (some y) h = absurd (h y refl)

module _ (w : World) (laws : SetLaws w.net) where
  open laws use {
    get_tcp-add_tcp, get_udp-add_tcp, get_udp-add_udp, get_tcp-add_udp, get_tcp-put_tcp,
    get_udp-put_tcp, get_udp-put_udp, get_tcp-put_udp, get_tcp-remove, get_udp-remove, one_kind,
  }

  pub Grows-add_tcp : (set : w.SocketSet) (x : w.TcpSocket) → Grows w set (w.add_tcp set x).1
  Grows-add_tcp set x = record {
    tcp = λ h (y, e).
        let (z, f) = some_if ((w.add_tcp set x).0 == h) x y _ e in (z, get_tcp-add_tcp set x h ∙ f);
    udp = λ h (y, e). (y, get_udp-add_tcp set x h ∙ e);
  }

  pub Grows-add_udp : (set : w.SocketSet) (x : w.UdpSocket) → Grows w set (w.add_udp set x).1
  Grows-add_udp set x = record {
    tcp = λ h (y, e). (y, get_tcp-add_udp set x h ∙ e);
    udp = λ h (y, e).
        let (z, f) = some_if ((w.add_udp set x).0 == h) x y _ e in (z, get_udp-add_udp set x h ∙ f);
  }

  pub TcpLive-add_tcp :
      (set : w.SocketSet) (x : w.TcpSocket)
      → w.get_tcp (w.add_tcp set x).1 (w.add_tcp set x).0 ≡ some x
  TcpLive-add_tcp set x = ground (arith, get_tcp-add_tcp set x (w.add_tcp set x).0)

  pub UdpLive-add_udp :
      (set : w.SocketSet) (x : w.UdpSocket)
      → w.get_udp (w.add_udp set x).1 (w.add_udp set x).0 ≡ some x
  UdpLive-add_udp set x = ground (arith, get_udp-add_udp set x (w.add_udp set x).0)

  pub Grows-put_tcp :
      (set : w.SocketSet) (h : ℕ) (x : w.TcpSocket)
      → TcpLive w set h
      → Grows w set (w.put_tcp set h x)
  Grows-put_tcp set h x (old, there) = record {
    tcp = λ j (y, e). let (z, f) = some_if (h == j) x y _ e in (z, get_tcp-put_tcp set h x j ∙ f);
    udp = λ j (y, e). (y, get_udp-put_tcp set h x j (one_kind set h old there) ∙ e);
  }

  pub Grows-put_udp :
      (set : w.SocketSet) (h : ℕ) (x : w.UdpSocket)
      → UdpLive w set h
      → Grows w set (w.put_udp set h x)
  Grows-put_udp set h x (old, there) = record {
    tcp = λ j (y, e). (
      y,
      get_tcp-put_udp set h x j (IsFree-none _ (λ z other. cc (one_kind set h z other, there))) ∙ e,
    );
    udp = λ j (y, e). let (z, f) = some_if (h == j) x y _ e in (z, get_udp-put_udp set h x j ∙ f);
  }

  -- Removing what the older set did not have.
  pub Grows-remove :
      (old new : w.SocketSet) (h : ℕ)
      → IsFree w old h
      → Grows w old new
      → Grows w old (w.remove_socket new h)
  Grows-remove old new h (no_tcp, no_udp) g = record {
    tcp = λ j x. elim (Bool-cases (h == j)) [
      | inl same ↦ let q : h ≡ j = (==_iff h j).0 same in absurd (cc (no_tcp, x.1, q))
      | inr other_ ↦ ((g.tcp j x).0, get_tcp-remove new h j ∙ rw other_ ((g.tcp j x).1))
    ];
    udp = λ j x. elim (Bool-cases (h == j)) [
      | inl same ↦ let q : h ≡ j = (==_iff h j).0 same in absurd (cc (no_udp, x.1, q))
      | inr other_ ↦ ((g.udp j x).0, get_udp-remove new h j ∙ rw other_ ((g.udp j x).1))
    ];
  }

  pub IsFree-older :
      (old new : w.SocketSet) (h : ℕ) → Grows w old new → IsFree w new h → IsFree w old h
  IsFree-older old new h g (no_tcp, no_udp) = (
    IsFree-none _ (λ y e. cc ((g.tcp h (y, e)).1, no_tcp)),
    IsFree-none _ (λ y e. cc ((g.udp h (y, e)).1, no_udp)),
  )
